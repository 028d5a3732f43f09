-- ===== src/Zones/Myaddr/Generator/Labels.antt =====
-- The names that internal/zones/myaddr/generator.go takes out of a query.
use addr_tools.Prelude.{
  ltb, length, length-append, take, drop, all, take-append, drop-append, Bytes, last_index_byte, ℕ,
  ◌+◌, ◌-◌, ◌≡◌, refl, sym, ap, ◌∙◌, true, false, none, some, [], ◌∷◌, ◌++◌, map, append_assoc,
  arith,
}
use addr_tools.Dnsutil.Strings.{
  to_lower_ascii, same_letter, prefix_loop, has_prefix_ascii_ignore_case,
}
use addr_tools.Dnsutil.Strings.Folding.{lower_byte, to_lower_ascii-map, length-to_lower_ascii}
use addr_tools.Zones.Myaddr.{is_valid_name}
use addr_tools.Zones.Myaddr.Names.{is_name_byte, is_valid_name_lem}
use addr_tools.Zones.Myaddr.Generator.{labels_before, last_label}

last_index-none : (name : Bytes) → all is_name_byte name ≡ true → last_index_byte b'.' name ≡ none
unfolding last_index_byte
last_index-none [] h = refl
last_index-none (c ∷ name) h = ground (arith, last_index-none name)

last_index-append :
    (front name : Bytes)
    → all is_name_byte name ≡ true
    → last_index_byte b'.' (front ++ b'.' ∷ name) ≡ some (length front)
unfolding last_index_byte
last_index-append [] name h = rw (last_index-none name h) refl
last_index-append (c ∷ front) name h = rw (last_index-append front name h) refl

drop_past : (front rest : Bytes) (b : ℕ) → drop (length front + 1) (front ++ b ∷ rest) ≡ rest
drop_past front rest b =
    ap (drop (length front + 1)) (sym (append_assoc front (b ∷ []) rest))
    ∙ ap (λ n. drop n ((front ++ b ∷ []) ++ rest)) (sym (length-append front (b ∷ [])))
    ∙ drop-append (front ++ b ∷ []) rest

is_valid_name-all : (name : Bytes) → is_valid_name name ≡ true → all is_name_byte name ≡ true
is_valid_name-all name valid = ground (arith, is_valid_name_lem name)

take_labels : (labels zone : Bytes) (b : ℕ) → labels_before (labels ++ b ∷ zone) zone ≡ labels
take_labels labels zone b =
    let n : length (labels ++ b ∷ zone) - length zone - 1 ≡ length labels =
      omega (arith, length-append labels (b ∷ zone)) in
    ap (λ n. take n (labels ++ b ∷ zone)) n ∙ take-append labels (b ∷ zone)

-- The label before the zone is the valid name that stands there, whatever labels are before it.
pub last_label_lem :
    (front name zone : Bytes)
    → is_valid_name name ≡ true
    → last_label (front ++ b'.' ∷ (name ++ b'.' ∷ zone)) zone ≡ name
unfolding last_label
last_label_lem front name zone valid =
    let labels = front ++ b'.' ∷ name in
    let split : front ++ b'.' ∷ (name ++ b'.' ∷ zone) ≡ labels ++ b'.' ∷ zone =
      sym (append_assoc front (b'.' ∷ name) (b'.' ∷ zone)) in
    rw
      (
        split,
        take_labels labels zone b'.',
        last_index-append front name (is_valid_name-all name valid),
      )
      (drop_past front name b'.')

prefix_loop-lower :
    (label rest : Bytes)
    → prefix_loop (label ++ b'.' ∷ rest) (map lower_byte label ++ b'.' ∷ []) ≡ true
unfolding prefix_loop same_letter
prefix_loop-lower [] rest = refl
prefix_loop-lower (c ∷ label) rest = ground (arith, prefix_loop-lower label rest)

-- A name that begins with a label and a dot has the lower-case label and a dot as a prefix without case.
pub has_prefix_label :
    (label low rest : Bytes)
    → to_lower_ascii label ≡ low
    → has_prefix_ascii_ignore_case (label ++ b'.' ∷ rest) (low ++ b'.' ∷ []) ≡ true
unfolding has_prefix_ascii_ignore_case
has_prefix_label label low rest e =
    let same : low ≡ map lower_byte label = sym e ∙ to_lower_ascii-map label in
    let found : prefix_loop (label ++ b'.' ∷ rest) (low ++ b'.' ∷ []) ≡ true =
      ap (λ p. prefix_loop (label ++ b'.' ∷ rest) (p ++ b'.' ∷ [])) same
      ∙ prefix_loop-lower label rest in
    let long : ltb (length (label ++ b'.' ∷ rest)) (length (low ++ b'.' ∷ [])) ≡ false = ground (
      arith,
      length-append label (b'.' ∷ rest),
      length-append low (b'.' ∷ []),
      ap length e,
      length-to_lower_ascii label,
    ) in
    rw (long) found
