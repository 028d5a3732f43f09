-- ===== src/Zones/Challenges/Records.antt =====
-- What requests store as challenges, and which TXT records follow.
use addr_tools.Prelude.{
  Bytes, bytes, bytes_eq_refl, Result, ok, err, >>=-eq-ok, ℕ, ◌≡◌, refl, sym, ap, ◌∙◌, subst, ◌⊎◌,
  inl, true, none, List, [], ◌∷◌, ◌++◌, arith,
}
use addr_tools.TtlStore.Contract.{TtlStore, IsLawful, fresh}
use addr_tools.Dnsutil.Strings.{to_lower_ascii}
use addr_tools.Httputil.{
  Method, get_method, post_method, put_method, delete_method, other_method, Request, Parsers,
  Response, http_error, plain, no_content, not_allowed, get_string,
}
use addr_tools.Zones.Replies.{optional, required, domain_of}
use addr_tools.Zones.Refusals.{is_refusal, reply-refused, reply-done}
use addr_tools.Zones.Dyn.Generator.{txt_records, type_txt, is_valid_subdomain, subdomain}
use addr_tools.Zones.Challenges.{
  challenge_ttl, is_valid_challenge, checked_txt, txt_or_body, read_fields, read_request, act,
  act_on, serve_http, generate_records,
}

checked_txt-valid :
    (given t : Bytes) → checked_txt given ≡ ok t → (t ≡ []) ⊎ (is_valid_challenge t ≡ true)
checked_txt-valid [] t e = inl (ground arith)
checked_txt-valid (c ∷ s) t e = ground arith

txt_or_body-valid :
    (req : Request) (t : Bytes)
    → (t ≡ []) ⊎ (is_valid_challenge t ≡ true)
    → (txt_or_body req t ≡ []) ⊎ (is_valid_challenge (txt_or_body req t) ≡ true)
txt_or_body-valid req (c ∷ s) h = h
txt_or_body-valid req [] h = ground arith

read_fields-valid :
    (P : Parsers) (req : Request) (secret t : Bytes)
    → read_fields P req ≡ ok (secret, t)
    → (t ≡ []) ⊎ (is_valid_challenge t ≡ true)
unfolding read_fields
read_fields-valid P req secret t e =
    let (secret', e1, k1) =
      >>=-eq-ok (required (bytes "secret") (get_string P req (bytes "secret"))) _ e in
    let (given, e2, k2) =
      >>=-eq-ok (optional (bytes "txt") (get_string P req (bytes "txt"))) _ k1 in
    let (checked, e3, k3) = >>=-eq-ok (checked_txt given) _ k2 in
    let same : txt_or_body req checked ≡ t = ground arith in
    subst (λ (u : Bytes). (u ≡ []) ⊎ (is_valid_challenge u ≡ true)) same
      (txt_or_body-valid req checked (checked_txt-valid given checked e3))

-- Whatever the request, the challenge that the handler works with is empty, or it is a valid challenge:
-- 1 to 255 bytes without '='. So a body of form values is never stored as a challenge.
pub read_request-valid :
    (P : Parsers) (req : Request) (secret t : Bytes)
    → read_request P req ≡ ok (secret, t)
    → (t ≡ []) ⊎ (is_valid_challenge t ≡ true)
unfolding read_request
read_request-valid P req secret t e = read_fields-valid P req secret t (ground arith)

abbrev status : Response → ℕ
status (http_error n text) = n
status (plain n text) = n
status no_content = 204
status (not_allowed methods) = 405

module _ {S E : Type 0} (T : TtlStore S E) (now : ℕ) where
  added-refused :
      (domain t : Bytes) (s : S)
      → is_refusal (act T now put_method domain t s).0 ≡ true
      → (act T now put_method domain t s).1 ≡ s
  added-refused domain [] s h = cc
  added-refused domain (c ∷ t) s h =
      reply-refused _ (T.add now domain (c ∷ t) challenge_ttl s) s refl h

  act-refused :
      (m : Method) (domain t : Bytes) (s : S)
      → is_refusal (act T now m domain t s).0 ≡ true
      → (act T now m domain t s).1 ≡ s
  act-refused delete_method domain [] s h = refl
  act-refused delete_method domain (c ∷ t) s h =
      reply-refused _ (T.remove domain (c ∷ t) s) s refl h
  act-refused get_method domain t s h = added-refused domain t s h
  act-refused post_method domain t s h = added-refused domain t s h
  act-refused put_method domain t s h = added-refused domain t s h
  act-refused (other_method m) domain t s h = added-refused domain t s h

  put_added :
      (domain c : Bytes) (s s' : S)
      → act T now put_method domain c s ≡ (plain 201 (bytes "OK" ++ 10 ∷ []), s')
      → T.add now domain c challenge_ttl s ≡ (none, s')
  put_added domain [] s s' e = absurd (omega (arith, ap (λ (p : Response × S). status p.0) e))
  put_added domain (b ∷ c) s s' e =
      reply-done _ (T.add now domain (b ∷ c) challenge_ttl s) s' (λ x. cc) e

  module _ (P : Parsers) (sum224_hex : Bytes → Bytes) (zone : Bytes) where
    act_on-refused :
        (req : Request) (r : Result Response (Bytes × Bytes)) (s : S)
        → is_refusal (act_on T now P sum224_hex zone req r s).0 ≡ true
        → (act_on T now P sum224_hex zone req r s).1 ≡ s
    act_on-refused req (err r) s h = refl
    act_on-refused req (ok (secret, t)) s h =
        act-refused req.method (domain_of sum224_hex zone secret) t s h

    -- A request to the challenges API that is answered with the status 400 or 405 leaves the store as
    -- it was.
    pub challenge-refused :
        (req : Request) (s : S)
        → is_refusal (serve_http T now P sum224_hex zone req s).0 ≡ true
        → (serve_http T now P sum224_hex zone req s).1 ≡ s
    unfolding serve_http
    challenge-refused req s h = act_on-refused req (read_request P req) s h

    served :
        (req : Request) (secret t : Bytes) (s : S)
        → read_request P req ≡ ok (secret, t)
        → serve_http T now P sum224_hex zone req s
          ≡ act T now req.method (domain_of sum224_hex zone secret) t s
    unfolding serve_http
    served req secret t s h = ap (λ r. act_on T now P sum224_hex zone req r s) h

    -- Over a store that keeps the contract: once a PUT to the challenges API is answered with
    -- 201, a TXT query for any spelling of the secret's domain gives the challenges that were
    -- there and after them the new one, until its two minutes are over. Here the domain is a
    -- valid name of the zone.
    pub generate_records-put :
        IsLawful T
        → (t : ℕ) (req : Request) (secret c name : Bytes) (vals : List Bytes) (s s' : S)
        → req.method ≡ put_method
        → read_request P req ≡ ok (secret, c)
        → serve_http T now P sum224_hex zone req s ≡ (plain 201 (bytes "OK" ++ 10 ∷ []), s')
        → to_lower_ascii name ≡ domain_of sum224_hex zone secret
        → is_valid_subdomain (subdomain name zone) ≡ true
        → T.values t (domain_of sum224_hex zone secret) s ≡ ok vals
        → generate_records T t type_txt name zone s'
          ≡ ok (txt_records name (vals ++ fresh t now c challenge_ttl), true)
    generate_records-put law t req secret c name vals s s' hm hr e hd hv hs =
        let domain = domain_of sum224_hex zone secret in
        let acted : act T now put_method domain c s ≡ (plain 201 (bytes "OK" ++ 10 ∷ []), s') =
          ap (λ m. act T now m domain c s) (sym hm) ∙ sym (served req secret c s hr) ∙ e in
        let added = put_added domain c s s' acted in
        unfold generate_records in
        rw (
          hv,
          hd,
          law.values-add t now challenge_ttl domain domain c s s' added,
          bytes_eq_refl domain,
          hs,
        )
