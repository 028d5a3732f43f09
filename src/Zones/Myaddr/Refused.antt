-- ===== src/Zones/Myaddr/Refused.antt =====
-- Refused updates of a name.
use addr_tools.Prelude.{
  Bytes, Result, ok, err, ℕ, ◌≡◌, refl, true, false, Option, none, some, [], ◌∷◌,
}
use addr_tools.TtlStore.Contract.{TtlStore}
use addr_tools.Httputil.{
  Method, get_method, post_method, put_method, delete_method, other_method, Request, Response,
  no_content,
}
use addr_tools.Zones.Refusals.{is_refusal, reply-accepted, reply-refused}
use addr_tools.Zones.Dyn.Handler.{Calls, delete_addresses}
use addr_tools.Zones.Myaddr.{update_registration}
use addr_tools.Zones.Myaddr.Handlers.{
  read_update, then_register, store_update, ok_reply, update_name, delete_name, act_update, on_name,
  on_update, serve_update,
}

module _ (C : Calls) (sum256_hex : Bytes → Bytes) {S E : Type 0}
    (data_store challenge_store : TtlStore S E) (clock : ℕ → ℕ) where
  then_register-accepted :
      (hash name : Bytes) (p : Option E × S)
      → is_refusal (then_register C sum256_hex data_store challenge_store clock hash name p).0
        ≡ false
  then_register-accepted hash name (some e, s) = refl
  then_register-accepted hash name (none, s) =
      reply-accepted ok_reply
        (update_registration data_store (clock 3) (clock 4) (clock 5) (clock 6) hash name s) refl

  update_name-refused :
      (hash name : Bytes) (ip : Option Bytes) (challenge : Bytes) (s : S)
      → is_refusal
          (update_name C sum256_hex data_store challenge_store clock hash name ip challenge s).0
        ≡ true
      → (update_name C sum256_hex data_store challenge_store clock hash name ip challenge s).1 ≡ s
  update_name-refused hash name none [] s h = refl
  update_name-refused hash name none (c ∷ t) s h = cc (
      then_register-accepted hash name
        (store_update C sum256_hex data_store challenge_store clock name none (c ∷ t) s))
  update_name-refused hash name (some ip) [] s h = cc (
      then_register-accepted hash name
        (store_update C sum256_hex data_store challenge_store clock name (some ip) [] s))
  update_name-refused hash name (some ip) (c ∷ t) s h = refl

  delete_name-refused :
      (name : Bytes) (ip : Option Bytes) (challenge : Bytes) (s : S)
      → is_refusal (delete_name C sum256_hex data_store challenge_store clock name ip challenge s).0
        ≡ true
      → (delete_name C sum256_hex data_store challenge_store clock name ip challenge s).1 ≡ s
  delete_name-refused name none [] s h =
      reply-refused no_content (delete_addresses C data_store 0 0 name s) s refl h
  delete_name-refused name none (c ∷ t) s h = refl
  delete_name-refused name (some ip) challenge s h = refl

  act_update-refused :
      (m : Method) (hash name : Bytes) (ip : Option Bytes) (challenge : Bytes) (s : S)
      → is_refusal
          (act_update C sum256_hex data_store challenge_store clock m hash name ip challenge s).0
        ≡ true
      → (act_update C sum256_hex data_store challenge_store clock m hash name ip challenge s).1 ≡ s
  act_update-refused delete_method hash name ip t s h = delete_name-refused name ip t s h
  act_update-refused get_method hash name ip t s h = update_name-refused hash name ip t s h
  act_update-refused post_method hash name ip t s h = update_name-refused hash name ip t s h
  act_update-refused put_method hash name ip t s h = update_name-refused hash name ip t s h
  act_update-refused (other_method m) hash name ip t s h = update_name-refused hash name ip t s h

  on_name-refused :
      (req : Request) (hash : Bytes) (ip : Option Bytes) (challenge : Bytes)
      (r : Result Response Bytes) (s : S)
      → is_refusal
          (on_name C sum256_hex data_store challenge_store clock req hash ip challenge r s).0
        ≡ true
      → (on_name C sum256_hex data_store challenge_store clock req hash ip challenge r s).1 ≡ s
  on_name-refused req hash ip challenge (err r) s h = refl
  on_name-refused req hash ip challenge (ok name) s h =
      act_update-refused req.method hash name ip challenge s h

  on_update-refused :
      (req : Request) (r : Result Response (Bytes × Option Bytes × Bytes)) (s : S)
      → is_refusal (on_update C sum256_hex data_store challenge_store clock req r s).0 ≡ true
      → (on_update C sum256_hex data_store challenge_store clock req r s).1 ≡ s
  on_update-refused req (err r) s h = refl
  on_update-refused req (ok (key, ip, challenge)) s h =
      on_name-refused req (sum256_hex key) ip challenge _ s h

  -- An update of a name that is answered with the status 400 or 405 changes neither store.
  pub serve_update-refused :
      (req : Request) (s : S)
      → is_refusal (serve_update C sum256_hex data_store challenge_store clock req s).0 ≡ true
      → (serve_update C sum256_hex data_store challenge_store clock req s).1 ≡ s
  unfolding serve_update
  serve_update-refused req s h = on_update-refused req (read_update C req) s h
