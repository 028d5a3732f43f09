-- ===== src/Zones/Refusals.antt =====
-- Replies that refuse a request, and replies that report what the store did.
use addr_tools.Prelude.{◌==◌, ◌≡◌, refl, sym, ap, ◌≢◌, Bool, true, false, Option, none, some}
use addr_tools.Httputil.{Response, http_error, plain, no_content, not_allowed}
use addr_tools.Zones.Replies.{server_error, reply}

-- The statuses 400 and 405.
abbrev pub is_refusal : Response → Bool
is_refusal (http_error n text) = n == 400
is_refusal (plain n text) = false
is_refusal no_content = false
is_refusal (not_allowed methods) = true

module _ {S E : Type 0} where
  pub reply-accepted :
      (r : Response) (p : Option E × S) → is_refusal r ≡ false → is_refusal (reply r p).0 ≡ false
  reply-accepted r (none, s) h = h
  reply-accepted r (some e, s) h = refl

  pub reply-refused :
      (r : Response) (p : Option E × S) (s : S)
      → is_refusal r ≡ false
      → is_refusal (reply r p).0 ≡ true
      → (reply r p).1 ≡ s
  reply-refused r p s h k = cc (reply-accepted r p h)

pub reply-done :
    {S E : Type 0} (r : Response) (p : Option E × S) (s : S)
    → r ≢ server_error
    → reply r p ≡ (r, s)
    → p ≡ (none, s)
reply-done r (none, s') s h e = ap (λ (q : Response × _). (none, q.1)) e
reply-done r (some x, s') s h e = absurd (h (sym (ap (λ (q : Response × _). q.0) e)))
