-- ===== src/Probes/Tails/Safety.antt =====
-- What the tail of internal/probewatch/probewatch.go has sent at any time.
use addr_tools.Prelude.{
  length, length-append, take, drop, take-append-drop, length-take, length-drop, Bytes, ℕ, zero,
  suc, ◌+◌, ◌≤◌, ◌≡◌, refl, sym, ap, ◌∙◌, subst, Bool, true, false, Option, List, [], ◌∷◌, ◌++◌,
  append-nil, append_assoc, arith,
}
use addr_tools.Probes.{Observation}
use addr_tools.Probes.Reports.{Reply, found, nothing, failed, decode_all}
use addr_tools.Probes.Tails.{
  window, max_per_poll, fetch, fetched, Phase, checking, reading, sending, waiting, finished,
  System, start, after_read, Step, pushed, stop_closed, checked, read, sent_one, sent_all,
  stop_seen, ticked, Reach, done, more,
}

-- The observations that were read and not sent yet, and the entries that they stand for.
abbrev pub todo_of : Phase → List Observation
todo_of (sending todo consumed) = todo
todo_of checking = []
todo_of reading = []
todo_of waiting = []
todo_of finished = []

abbrev pub consumed_of : Phase → ℕ
consumed_of (sending todo consumed) = consumed
consumed_of checking = 0
consumed_of reading = 0
consumed_of waiting = 0
consumed_of finished = 0

pub decode_all-append :
    {A : Type 0} (decode : Bytes → Option A) (xs ys : List Bytes)
    → decode_all decode (xs ++ ys) ≡ decode_all decode xs ++ decode_all decode ys
unfolding decode_all
decode_all-append decode [] ys = refl
decode_all-append decode (x ∷ xs) ys = ground (arith, decode_all-append decode xs ys)

pub decode_all-nil : {A : Type 0} (decode : Bytes → Option A) → decode_all decode [] ≡ []
unfolding decode_all
decode_all-nil decode = refl

take-append_of_le : (k : ℕ) (xs ys : List Bytes) → k ≤ length xs → take k (xs ++ ys) ≡ take k xs
take-append_of_le zero xs ys h = ground arith
take-append_of_le (suc k) [] ys h = absurd (omega arith)
take-append_of_le (suc k) (x ∷ xs) ys h = ap (λ r. x ∷ r) (take-append_of_le k xs ys (omega arith))

take-nil : (k : ℕ) → ◌≡◌ {A = List Bytes} (take k []) []
take-nil zero = refl
take-nil (suc k) = refl

take-length-take : (n : ℕ) (xs : List Bytes) → take (length (take n xs)) xs ≡ take n xs
take-length-take zero xs = ground arith
take-length-take (suc n) [] = refl
take-length-take (suc n) (x ∷ xs) = ap (λ r. x ∷ r) (take-length-take n xs)

pub take-add :
    (c n : ℕ) (xs : List Bytes)
    → take (c + length (take n (drop c xs))) xs ≡ take c xs ++ take n (drop c xs)
take-add zero n xs = ap (λ k. take k xs) (omega arith) ∙ take-length-take n xs
take-add (suc c) n [] = take-nil (suc c + length (take n [])) ∙ sym (take-nil n)
take-add (suc c) n (x ∷ xs) =
    let out : suc c + length (take n (drop c xs)) ≡ suc (c + length (take n (drop c xs))) =
      omega arith in
    ap (λ k. take k (x ∷ xs)) out ∙ ap (λ r. x ∷ r) (take-add c n xs)

module _ (E : Type 0) (decode : Bytes → Option Observation) where
  -- What was sent, with what is still to send of the last read, is what the entries up to the cursor hold.
  pub record IsFaithful (s : System) : Type 0 where
    pub sent_so_far :
        s.sent ++ todo_of s.phase ≡ decode_all decode (take (s.cursor + consumed_of s.phase) s.log)
    pub in_list : s.cursor + consumed_of s.phase ≤ length s.log

  pub read_window :
      (cursor : ℕ) (log : List Bytes) (sent : List Observation)
      → sent ++ [] ≡ decode_all decode (take (cursor + 0) log)
      → sent ++ decode_all decode (window cursor log)
        ≡ decode_all decode (take (cursor + length (window cursor log)) log)
  read_window cursor log sent h =
      let before : sent ≡ decode_all decode (take cursor log) =
        sym (append-nil sent) ∙ h ∙ ap (λ k. decode_all decode (take k log)) (omega arith) in
      ap (λ r. r ++ decode_all decode (window cursor log)) before
      ∙ sym (decode_all-append decode (take cursor log) (window cursor log))
      ∙ ap (decode_all decode) (sym (take-add cursor max_per_poll log))

  pub window-bound :
      (cursor : ℕ) (log : List Bytes)
      → cursor ≤ length log
      → cursor + length (window cursor log) ≤ length log
  window-bound cursor log h =
      omega (arith, length-take max_per_poll (drop cursor log), length-drop cursor log)

  IsFaithful-read :
      (log : List Bytes) (stopped : Bool) (cursor : ℕ) (sent : List Observation)
      (reply : Reply E (List Bytes))
      → ((vals : List Bytes) → reply ≡ found vals → vals ≡ window cursor log)
      → IsFaithful
          (record { log = log; stopped = stopped; phase = reading; cursor = cursor; sent = sent })
      → IsFaithful (record {
        log = log;
        stopped = stopped;
        phase = after_read (fetched decode reply) stopped;
        cursor = cursor;
        sent = sent;
      })
  IsFaithful-read log stopped cursor sent (found vals) right inv =
      let e : vals ≡ window cursor log = right vals refl in
      record {
        sent_so_far =
            subst
              (λ vs.
                sent ++ decode_all decode vs ≡ decode_all decode (take (cursor + length vs) log))
              (sym e) (read_window cursor log sent inv.sent_so_far);
        in_list =
            subst (λ vs. cursor + length vs ≤ length log) (sym e)
              (window-bound cursor log (omega (arith, inv.in_list)));
      }
  IsFaithful-read log stopped cursor sent nothing right inv = record {
    sent_so_far = inv.sent_so_far;
    in_list = inv.in_list;
  }
  IsFaithful-read log true cursor sent (failed e) right inv = record {
    sent_so_far = inv.sent_so_far;
    in_list = inv.in_list;
  }
  IsFaithful-read log false cursor sent (failed e) right inv = record {
    sent_so_far = inv.sent_so_far;
    in_list = inv.in_list;
  }

  Step-IsFaithful : {s t : System} → Step E decode s t → IsFaithful s → IsFaithful t
  unfolding fetch
  Step-IsFaithful (pushed v log stopped phase cursor sent) inv = record {
    sent_so_far =
        inv.sent_so_far
        ∙ ap (decode_all decode)
            (sym (take-append_of_le (cursor + consumed_of phase) log (v ∷ []) inv.in_list));
    in_list = omega (arith, length-append log (v ∷ []), inv.in_list);
  }
  Step-IsFaithful (stop_closed log stopped phase cursor sent) inv = record {
    sent_so_far = inv.sent_so_far;
    in_list = inv.in_list;
  }
  Step-IsFaithful (checked log true cursor sent) inv = record {
    sent_so_far = inv.sent_so_far;
    in_list = inv.in_list;
  }
  Step-IsFaithful (checked log false cursor sent) inv = record {
    sent_so_far = inv.sent_so_far;
    in_list = inv.in_list;
  }
  Step-IsFaithful (read log stopped cursor sent reply right) inv =
      IsFaithful-read log stopped cursor sent reply right inv
  Step-IsFaithful (sent_one log stopped o todo consumed cursor sent) inv = record {
    sent_so_far = append_assoc sent (o ∷ []) todo ∙ inv.sent_so_far;
    in_list = inv.in_list;
  }
  Step-IsFaithful (sent_all log stopped consumed cursor sent) inv = record {
    sent_so_far = inv.sent_so_far ∙ ap (λ k. decode_all decode (take k log)) (omega arith);
    in_list = omega (arith, inv.in_list);
  }
  Step-IsFaithful (stop_seen log cursor sent) inv = record {
    sent_so_far = inv.sent_so_far;
    in_list = inv.in_list;
  }
  Step-IsFaithful (ticked log stopped cursor sent) inv = record {
    sent_so_far = inv.sent_so_far;
    in_list = inv.in_list;
  }

  pub Reach-IsFaithful :
      {log : List Bytes} {s : System} → Reach E decode (start log) s → IsFaithful s
  Reach-IsFaithful done = record {
    sent_so_far = sym (decode_all-nil decode);
    in_list = omega arith;
  }
  Reach-IsFaithful (more r st) = Step-IsFaithful st (Reach-IsFaithful r)

  -- Whatever is pushed, whichever reads fail and whenever the tail is stopped, a tail from the
  -- start has sent at any time a beginning of what the list holds by then: each observation once,
  -- in the order of the list.
  pub Reach-sent :
      {log : List Bytes} {s : System}
      → Reach E decode (start log) s
      → (rest : List Observation) × (s.sent ++ rest ≡ decode_all decode s.log)
  Reach-sent {s = s} r =
      let inv = Reach-IsFaithful r in
      let k = s.cursor + consumed_of s.phase in
      (
        todo_of s.phase ++ decode_all decode (drop k s.log),
        sym (append_assoc s.sent (todo_of s.phase) (decode_all decode (drop k s.log)))
            ∙ ap (λ r. r ++ decode_all decode (drop k s.log)) inv.sent_so_far
            ∙ sym (decode_all-append decode (take k s.log) (drop k s.log))
            ∙ ap (decode_all decode) (take-append-drop k s.log),
      )
