-- ===== src/Dnscheck/Options.antt =====
-- ParseOptions of internal/zones/dnscheck/options.go.
pub mod Consistency
pub mod Casing
use mathlib.Core.Option
use addr_tools.Prelude.{
  ltb, leb, ◌==◌, if◌then◌else◌, ltb→lt, lt→ltb, leb→le, ==_iff, Bool-cases, Option-cases,
  &&-eq-true, length, length-append, take, drop, replicate, All, all, keep, head?, take-append-drop,
  length-take, length-drop, take-append, drop-append, length-map, length-replicate, length-keep,
  keep-append, Bytes, IsByte, bytes, bytes_eq, bytes_eq→eq, bytes_eq_refl, bytes_eq_iff, has_prefix,
  has_prefix-append, index_byte, or_here, last_index_byte, cons_first, split_byte, Map, lookup,
  delete, insert, Unique, lookup-delete, lookup-insert, delete-Unique, insert-Unique, Result, ok,
  err, ◌>>=◌, map_ok, >>=-eq-ok, ℤ, pos, negsuc, negate, is_digit, decimal, unsigned, atoi, ℕ, zero,
  suc, ◌+◌, ◌-◌, ◌*◌, ◌/◌, ◌%◌, ◌^◌, ◌≤◌, ◌<◌, String, ◌≡◌, refl, sym, ap, ◌∙◌, subst, ◌≢◌, ◌↔◌,
  ◌⊎◌, inl, inr, Bool, true, false, not, ◌&&◌, ◌||◌, Option, none, some, List, [], ◌∷◌, ◌++◌, map,
  append-nil, append_assoc, arith,
}
use addr_tools.Dnsutil.Strings.{
  max_txt_string_size, is_upper, add_32, same_letter, prefix_loop, has_prefix_ascii_ignore_case,
  equals_ascii_ignore_case, lower_copy, to_lower_ascii, last_piece, split_loop, split_for_txt,
}

-- `expired_sig` and `txt_fill` are Go ints that hold 0 or a checked value.
pub record Options : Type 0 where
  pub random : Bytes
  pub compress : Bool
  pub truncate : Bool
  pub no_truncate : Bool
  pub bad_sig : Bool
  pub expired_sig : ℕ
  pub no_sig : Bool
  pub rcode : ℕ
  pub null_ip : Bool
  pub txt_fill : ℕ

-- new(Options)
abbrev pub no_options : Options
no_options = record {
  random = [];
  compress = false;
  truncate = false;
  no_truncate = false;
  bad_sig = false;
  expired_sig = 0;
  no_sig = false;
  rcode = 0;
  null_ip = false;
  txt_fill = 0;
}

-- dns.RcodeNameError and dns.RcodeRefused
abbrev pub rcode_name_error : ℕ
rcode_name_error = 3

abbrev pub rcode_refused : ℕ
rcode_refused = 5

-- The cases of the switch. `none` is `return nil`.
unfoldable pub set_compress : Options → Option Options
set_compress o = if o.compress then none else some (record o { compress = true })

unfoldable pub set_truncate : Options → Option Options
set_truncate o = if o.truncate || o.no_truncate then none else some (record o { truncate = true })

unfoldable pub set_no_truncate : Options → Option Options
set_no_truncate o =
    if o.truncate || o.no_truncate then none else some (record o { no_truncate = true })

abbrev pub has_sig_option : Options → Bool
has_sig_option o = o.bad_sig || not (o.expired_sig == 0) || o.no_sig

unfoldable pub set_bad_sig : Options → Option Options
set_bad_sig o = if has_sig_option o then none else some (record o { bad_sig = true })

-- The number, if it lies between 1 and the limit.
abbrev pub within : ℕ → ℤ → Option ℕ
within limit (pos n) = if ltb n 1 || ltb limit n then none else some n
within limit (negsuc n) = none

unfoldable pub set_expired_sig : Bytes → Options → Option Options
set_expired_sig s o =
    if has_sig_option o
    then none
    else if ltb 10 (length s)
    then Option.map (λ n. record o { expired_sig = n }) (within 99999999 (atoi (drop 10 s)))
    else some (record o { expired_sig = 86400 })

unfoldable pub set_no_sig : Options → Option Options
set_no_sig o = if has_sig_option o then none else some (record o { no_sig = true })

abbrev pub has_answer_option : Options → Bool
has_answer_option o = not (o.rcode == 0) || o.null_ip || not (o.txt_fill == 0)

unfoldable pub set_rcode : ℕ → Options → Option Options
set_rcode code o = if has_answer_option o then none else some (record o { rcode = code })

unfoldable pub set_null_ip : Options → Option Options
set_null_ip o = if has_answer_option o then none else some (record o { null_ip = true })

unfoldable pub set_txt_fill : Bytes → Options → Option Options
set_txt_fill s o =
    if has_answer_option o
    then none
    else Option.map (λ n. record o { txt_fill = n }) (within 4096 (atoi (drop 7 s)))

abbrev pub is_hex : ℕ → Bool
is_hex c = is_digit c || (leb b'A' c && leb c b'F') || (leb b'a' c && leb c b'f')

unfoldable pub set_random : Bytes → Options → Option Options
set_random s o =
    if ltb 0 (length o.random) || ltb (length s) 1 || ltb 8 (length s)
    then none
    else if all is_hex s
    then some (record o { random = to_lower_ascii s })
    else none

-- A Go switch with conditions: the first case that holds, or the default.
abbrev pub switch : List (Bool × Option Options) → Option Options → Option Options
switch [] otherwise = otherwise
switch ((test, result) ∷ rest) otherwise = if test then result else switch rest otherwise

-- The cases of the switch for one part of the label, all but the default.
abbrev pub part_cases : Options → Bytes → List (Bool × Option Options)
part_cases o s =
    (equals_ascii_ignore_case s (bytes "compress"), set_compress o)
    ∷ (equals_ascii_ignore_case s (bytes "truncate"), set_truncate o)
    ∷ (equals_ascii_ignore_case s (bytes "notruncate"), set_no_truncate o)
    ∷ (equals_ascii_ignore_case s (bytes "badsig"), set_bad_sig o)
    ∷ (has_prefix_ascii_ignore_case s (bytes "expiredsig"), set_expired_sig s o)
    ∷ (equals_ascii_ignore_case s (bytes "nosig"), set_no_sig o)
    ∷ (equals_ascii_ignore_case s (bytes "nxdomain"), set_rcode rcode_name_error o)
    ∷ (equals_ascii_ignore_case s (bytes "refused"), set_rcode rcode_refused o)
    ∷ (equals_ascii_ignore_case s (bytes "nullip"), set_null_ip o)
    ∷ (has_prefix_ascii_ignore_case s (bytes "txtfill"), set_txt_fill s o)
    ∷ []

unfoldable pub parse_part : Options → Bytes → Option Options
parse_part o s = switch (part_cases o s) (set_random s o)

unfoldable pub parse_parts : List Bytes → Options → Option Options
parse_parts [] o = some o
parse_parts (s ∷ ss) o = elim (parse_part o s) [ none ↦ none | some o' ↦ parse_parts ss o' ]

-- if i := strings.LastIndexByte(sub, '.'); i >= 0 { sub = sub[i+1:] }
abbrev pub after : Option ℕ → Bytes → Bytes
after none s = s
after (some i) s = drop (suc i) s

-- if len(sub) > 0 && sub[len(sub)-1] == '.' { sub = sub[:len(sub)-1] }
unfoldable pub drop_last_dot : Bytes → Bytes
drop_last_dot [] = []
drop_last_dot (c ∷ []) = if c == b'.' then [] else c ∷ []
drop_last_dot (c ∷ d ∷ s) = c ∷ drop_last_dot (d ∷ s)

abbrev pub parse_label : Bytes → Option Options
parse_label [] = some no_options
parse_label (c ∷ s) =
    parse_parts (split_byte b'-' (after (last_index_byte b'.' (c ∷ s)) (c ∷ s))) no_options

unfoldable pub parse_options : Bytes → Option Options
unfolding parse_parts drop_last_dot parse_part set_compress set_truncate set_no_truncate set_bad_sig
    set_expired_sig set_no_sig set_rcode set_null_ip set_txt_fill set_random
parse_options sub = parse_label (drop_last_dot sub)
