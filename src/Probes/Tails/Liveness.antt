-- ===== src/Probes/Tails/Liveness.antt =====
-- The tail of internal/probewatch/probewatch.go sends everything.
use addr_tools.Prelude.{
  if◌then◌else◌, length, take, drop, length-take, length-drop, take_all, Bytes, ℕ, suc, ◌+◌, ◌*◌,
  ◌≤◌, ◌≡◌, sym, ap, ◌∙◌, subst, Bool, true, false, Option, some, List, [], ◌∷◌, ◌++◌, append-nil,
  append_assoc, arith,
}
use addr_tools.Probes.{Observation}
use addr_tools.Probes.Reports.{found, failed, decode_all}
use addr_tools.Probes.Tails.{
  window, max_per_poll, fetch, pass, run_tail, checking, sending, System, checked, read, sent_one,
  sent_all, ticked, Reach, more,
}
use addr_tools.Probes.Tails.Safety.{decode_all-nil, read_window, window-bound}

-- The reads that succeed.
abbrev pub working : List Bool → ℕ
working [] = 0
working (true ∷ bs) = suc (working bs)
working (false ∷ bs) = working bs

module _ {E : Type 0} (decode : Bytes → Option Observation) (e : E) (log : List Bytes) where
  run_tail_lem :
      (reads : List Bool) (cursor : ℕ) (sent : List Observation)
      → cursor ≤ length log
      → sent ≡ decode_all decode (take cursor log)
      → length log ≤ cursor + max_per_poll * working reads
      → run_tail decode e log reads (cursor, sent) ≡ (length log, decode_all decode log)
  unfolding run_tail fetch
  run_tail_lem [] cursor sent low sent_so_far enough =
      let all : cursor ≡ length log = omega arith in
      let same : sent ≡ decode_all decode log =
        sent_so_far
        ∙ ap (λ k. decode_all decode (take k log)) all
        ∙ ap (decode_all decode) (take_all log) in
      ap (λ (k : ℕ). (k, sent)) all ∙ ap (λ (r : List Observation). (length log, r)) same
  run_tail_lem (false ∷ reads) cursor sent low sent_so_far enough =
      run_tail_lem reads cursor sent low sent_so_far (omega arith)
  run_tail_lem (true ∷ reads) cursor sent low sent_so_far enough =
      run_tail_lem reads (cursor + length (window cursor log))
        (sent ++ decode_all decode (window cursor log)) (window-bound E decode cursor log low)
        (read_window E decode cursor log sent
          (append-nil sent ∙ sent_so_far ∙ ap (λ k. decode_all decode (take k log)) (omega arith)))
        (omega (arith, length-take max_per_poll (drop cursor log), length-drop cursor log))

  -- On a list that stays as it is, whatever reads fail in between, once enough of them have
  -- succeeded, at 64 entries each, the tail has sent every observation of the list and its cursor
  -- is at the end.
  pub run_tail-sends_all :
      (reads : List Bool)
      → length log ≤ max_per_poll * working reads
      → run_tail decode e log reads (0, []) ≡ (length log, decode_all decode log)
  run_tail-sends_all reads enough =
      run_tail_lem reads 0 [] (omega arith) (sym (decode_all-nil decode)) (omega arith)

  abbrev at_check : ℕ × List Observation → System
  at_check (cursor, sent) = record {
    log = log;
    stopped = false;
    phase = checking;
    cursor = cursor;
    sent = sent;
  }

  -- A pass of the loop is a run of the system.
  sending-Reach :
      (s : System) (todo : List Observation) (consumed cursor : ℕ) (sent : List Observation)
      → Reach E decode s (record {
        log = log;
        stopped = false;
        phase = sending todo consumed;
        cursor = cursor;
        sent = sent;
      })
      → Reach E decode s (at_check (cursor + consumed, sent ++ todo))
  sending-Reach s [] consumed cursor sent r =
      subst (λ all. Reach E decode s (at_check (cursor + consumed, all))) (sym (append-nil sent))
        (more (more r (sent_all log false consumed cursor sent))
          (ticked log false (cursor + consumed) sent))
  sending-Reach s (o ∷ todo) consumed cursor sent r =
      subst (λ all. Reach E decode s (at_check (cursor + consumed, all)))
        (append_assoc sent (o ∷ []) todo)
        (sending-Reach s todo consumed cursor (sent ++ o ∷ [])
          (more r (sent_one log false o todo consumed cursor sent)))

  reading-Reach :
      (s : System) (works : Bool) (cursor : ℕ) (sent : List Observation)
      → Reach E decode s (at_check (cursor, sent))
      → Reach E decode s (
          at_check (
            pass
              (fetch decode (some (λ k. if works then found (window k log) else failed e)) cursor)
              (cursor, sent)))
  unfolding fetch
  reading-Reach s true cursor sent r =
      sending-Reach s (decode_all decode (window cursor log)) (length (window cursor log)) cursor
        sent
        (more (more r (checked log false cursor sent))
          (read log false cursor sent (found (window cursor log)) (λ vals same. cc)))
  reading-Reach s false cursor sent r =
      more
        (more (more r (checked log false cursor sent))
          (read log false cursor sent (failed e) (λ vals same. absurd (cc))))
        (ticked log false cursor sent)

  -- The passes are a run of the system, so what holds of every run holds of them.
  pub run_tail-Reach :
      (reads : List Bool) (s : System) (at : ℕ × List Observation)
      → Reach E decode s (at_check at)
      → Reach E decode s (at_check (run_tail decode e log reads at))
  unfolding run_tail
  run_tail-Reach [] s at r = r
  run_tail-Reach (works ∷ reads) s at r =
      run_tail-Reach reads s
        (pass (fetch decode (some (λ k. if works then found (window k log) else failed e)) at.0) at)
        (reading-Reach s works at.0 at.1 r)
