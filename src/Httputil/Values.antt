-- ===== src/Httputil/Values.antt =====
-- What GetString's result says about the values of the request.
use addr_tools.Prelude.{
  All, Bytes, bytes_eq_iff, Result, ok, err, ◌≡◌, refl, sym, ap, ◌≢◌, none, some, List, [], ◌∷◌,
  arith,
}
use addr_tools.Httputil.{
  FormError, Value, text, not_text, Parsers, Request, values, string_loop, get_string, string_of,
}

string_loop-some :
    (vs : List Value) (str s : Bytes)
    → string_loop vs (some str) none ≡ (s, none)
    → (s ≡ str) × All (λ v. v ≡ text s) vs
unfolding string_loop
string_loop-some [] str s e = (ground arith, tt)
string_loop-some (text t ∷ vs) str s e =
    ground (arith, string_loop-some vs str s, bytes_eq_iff t str)
string_loop-some (not_text ∷ vs) str s e = cc

string_loop-broken :
    (vs : List Value) (x : FormError) (s : Bytes) → string_loop vs none (some x) ≢ (s, none)
unfolding string_loop
string_loop-broken [] x s e = cc
string_loop-broken (text t ∷ vs) x s e = cc
string_loop-broken (not_text ∷ vs) x s e = string_loop-broken vs _ s e

string_loop-none :
    (vs : List Value) (s : Bytes)
    → string_loop vs none none ≡ (s, none)
    → All (λ v. v ≡ text s) vs × ((vs ≡ []) → s ≡ [])
unfolding string_loop
string_loop-none [] s e = (tt, λ h. ground arith)
string_loop-none (text t ∷ vs) s e =
    let (same, rest) = string_loop-some vs t s e in ((ap text (sym same), rest), λ h. cc)
string_loop-none (not_text ∷ vs) s e = absurd (string_loop-broken vs _ s e)

string_of-ok :
    (r : Result FormError (List Value)) (s : Bytes)
    → string_of r ≡ (s, none)
    → (vs : List Value) × (r ≡ ok vs) × All (λ v. v ≡ text s) vs × ((vs ≡ []) → s ≡ [])
string_of-ok (err x) s e = cc
string_of-ok (ok vs) s e = let (same, empty) = string_loop-none vs s e in (vs, refl, same, empty)

module _ (P : Parsers) where
  -- GetString without an error: the values of the key could be read, all of them, in the body and
  -- in the URL, are one and the same string, and where there is no value the string is empty.
  pub get_string_lem :
      (req : Request) (key s : Bytes)
      → get_string P req key ≡ (s, none)
      → (vs : List Value) × (values P req key ≡ ok vs)
        × All (λ v. v ≡ text s) vs
        × ((vs ≡ []) → s ≡ [])
  unfolding get_string
  get_string_lem req key s e = string_of-ok (values P req key) s e
