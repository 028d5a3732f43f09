-- ===== src/Probes/Tails/Stopping.antt =====
-- The tail of internal/probewatch/probewatch.go after its channel is closed.
use addr_tools.Prelude.{Bytes, ◌≡◌, refl, ◌∙◌, Bool, true, false, Option}
use addr_tools.Probes.{Observation}
use addr_tools.Probes.Tails.{
  Phase, checking, reading, sending, waiting, finished, System, Step, pushed, stop_closed, checked,
  read, sent_one, sent_all, stop_seen, ticked, Reach, done, more,
}

-- Whether the tail is outside its read and its loop over what was read.
abbrev pub is_quiet : Phase → Bool
is_quiet checking = true
is_quiet waiting = true
is_quiet finished = true
is_quiet reading = false
is_quiet (sending todo consumed) = false

module _ {E : Type 0} {decode : Bytes → Option Observation} where
  Step-silent :
      {s t : System}
      → Step E decode s t
      → s.stopped ≡ true
      → is_quiet s.phase ≡ true
      → (t.stopped ≡ true) × (is_quiet t.phase ≡ true) × (t.sent ≡ s.sent)
  Step-silent (pushed v log stopped phase cursor sent) shut quiet = (shut, quiet, refl)
  Step-silent (stop_closed log stopped phase cursor sent) shut quiet = (refl, quiet, refl)
  Step-silent (checked log true cursor sent) shut quiet = (shut, refl, refl)
  Step-silent (checked log false cursor sent) shut quiet = absurd (cc)
  Step-silent (read log stopped cursor sent reply right) shut quiet = absurd (cc)
  Step-silent (sent_one log stopped o todo consumed cursor sent) shut quiet = absurd (cc)
  Step-silent (sent_all log stopped consumed cursor sent) shut quiet = absurd (cc)
  Step-silent (stop_seen log cursor sent) shut quiet = (refl, refl, refl)
  Step-silent (ticked log stopped cursor sent) shut quiet = (shut, refl, refl)

  Reach-quiet :
      {s t : System}
      → s.stopped ≡ true
      → is_quiet s.phase ≡ true
      → Reach E decode s t
      → (t.stopped ≡ true) × (is_quiet t.phase ≡ true) × (t.sent ≡ s.sent)
  Reach-quiet shut quiet done = (shut, quiet, refl)
  Reach-quiet shut quiet (more r st) =
      let (shut', quiet', same) = Reach-quiet shut quiet r in
      let (shut'', quiet'', kept) = Step-silent st shut' quiet' in (shut'', quiet'', kept ∙ same)

  -- A tail whose channel is closed while it does not read or send sends nothing any more, whatever
  -- happens.
  pub Reach-silent :
      {s t : System}
      → s.stopped ≡ true
      → is_quiet s.phase ≡ true
      → Reach E decode s t
      → t.sent ≡ s.sent
  Reach-silent shut quiet r = (Reach-quiet shut quiet r).2
