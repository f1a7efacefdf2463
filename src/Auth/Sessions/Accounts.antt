-- ===== src/Auth/Sessions/Accounts.antt =====
-- One account for one address.
use jhaz_imprints.Common.{
  ℕ, ◌≤◌, String, ◌≡◌, refl, Bool, none, List, [], ◌∷◌, ◌++◌, arith, eq_iff, find_first, count,
  count-update_same, count-concat, Option-cases, Result-cases, inl, inr,
}
use jhaz_imprints.Schema.{Db}
use jhaz_imprints.Store.{has_email, has_user_id, update_user}
use jhaz_imprints.Auth.Env.{Env}
use jhaz_imprints.Auth.Sessions.{
  RegisterData, new_user, with_token, generate_refresh_token, register,
}

count-none : {A : Type 0} (p : A → Bool) (xs : List A) → find_first p xs ≡ none → count p xs ≡ 0
count-none p [] h = refl
count-none p (x ∷ xs) h = ground (arith, count-none p xs)

-- However a registration ends, no address belongs to two users after it, if none did before.
pub register_unique :
    {F : Type 0} (env : Env) (now : ℕ) (id email : String) (input : RegisterData) (s : Db F)
    → count (has_email email) s.users ≤ 1
    → count (has_email email) (register env now id input s).1.users ≤ 1
unfolding register update_user
register_unique env now id email input s one =
    elim (Option-cases (find_first (has_email input.email) s.users)) [
      | inr (u, taken) ↦ ground arith
      | inl free ↦ elim (Result-cases (generate_refresh_token env now (new_user env id input))) [
        | inr (e, bad) ↦ ground (
          arith,
          eq_iff input.email email,
          count-none (has_email input.email) s.users free,
          count-concat (has_email email) s.users (new_user env id input),
        )
        | inl (refresh, good) ↦ ground (
          arith,
          eq_iff input.email email,
          count-none (has_email input.email) s.users free,
          count-concat (has_email email) s.users (new_user env id input),
          count-update_same (has_user_id id) (has_email email) (with_token env refresh)
              (s.users ++ new_user env id input ∷ []) (λ u. refl),
        )
      ]
    ]
