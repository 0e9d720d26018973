-- ===== src/Exec.antt =====
-- Go functions that change state and may return an error: what was written before an error stays
-- written, so the state comes back beside the error too.
mod Errors
pub mod Ensures
pub mod Keeps
pub mod Triple
pub use Errors.{
  Error, Result, ok, err, driver, violation, invalid_transition, missing_charge_id, empty_charge_id,
  purchase_not_found, content_not_found, content_inactive, invalid_rating, invalid_token,
  token_expired, token_used, no_entropy, empty_video_id, missing_library_id, missing_api_key,
  bad_status, list_failed, malformed, method_not_allowed, bad_secret, out_of_range,
}
unfoldable pub use Errors.{message}
use streaming_bot.Prelude.{◌≡◌, refl, Bool, true, false, Option, none, some, if◌then◌else◌}

abbrev pub Exec {ℓ} : Type ℓ → Type ℓ → Type ℓ
Exec S A = S → Result A × S

module _ {ℓ} {S A : Type ℓ} where
  unfoldable pub pure : A → Exec S A
  pure a s = (ok a, s)

  unfoldable pub raise : Error → Exec S A
  raise e s = (err e, s)

  unfoldable pub lift : Result A → Exec S A
  lift r s = (r, s)

  unfoldable pub gets : (S → A) → Exec S A
  gets f s = (ok (f s), s)

  -- `x, err := m()`, with the error kept for the caller to look at.
  unfoldable pub attempt : Exec S A → Exec S (Result A)
  attempt m s = let (r, s') = m s in (ok r, s')

  -- `if err != nil || x == nil { return e }`
  unfoldable pub present : Result (Option A) → Error → Exec S A
  present (ok (some a)) e s = (ok a, s)
  present (ok none) e s = (err e, s)
  present (err _) e s = (err e, s)

module _ {S : Type 0} where
  -- `if c { return e }`
  unfoldable pub raise_if : Bool → Error → Exec S Unit
  raise_if c e s = (if c then err e else ok tt, s)

  unfoldable pub modify : (S → S) → Exec S Unit
  modify f s = (ok tt, f s)

  -- `_ = m()`
  unfoldable pub ignore : {A : Type 0} → Exec S A → Exec S Unit
  ignore m s = let (r, s') = m s in (ok tt, s')

  -- A method with a pointer receiver, called on a local copy.
  unfoldable pub on : {T : Type 0} → T → Exec T Unit → Exec S T
  on t m s = let (r, t') = m t in (elim r [ ok _ ↦ ok t' | err e ↦ err e ], s)

module _ {ℓ} {S A B : Type ℓ} where
  unfoldable pub continue : Result A → (A → Exec S B) → Exec S B
  continue (ok a) f s = f a s
  continue (err e) f s = (err e, s)

  infixl 5 ◌>>=◌
  unfoldable pub ◌>>=◌ : Exec S A → (A → Exec S B) → Exec S B
  unfolding continue pure raise lift gets attempt present
  ◌>>=◌ m f s = let (r, s') = m s in continue r f s'

module _ {S B : Type 0} where
  infixl 5 ◌>>◌
  abbrev pub ◌>>◌ : Exec S Unit → Exec S B → Exec S B
  m >> n = m >>= λ _. n
