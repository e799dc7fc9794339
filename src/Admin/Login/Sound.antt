-- ===== src/Admin/Login/Sound.antt =====
-- Who is signed in, and what the cookies of a login are good for.
use anti_bot_gw.Common.{
  ℕ, true, false, Option, none, some, nat_eq, list_eq, String, string_eq, ◌≡◌, refl, arith,
  Option-cases, Bool-cases, inl, inr,
}
use anti_bot_gw.Common.Dict.{Dict, get}
use anti_bot_gw.Challenge.Decimal.{Text}
use anti_bot_gw.Challenge.Pow.{is_nil}
use anti_bot_gw.Pipeline.Windows.{login_rate_limit}
use anti_bot_gw.Admin.Password.{password_verify}
use anti_bot_gw.Admin.Store.{Status, User, Store}
use anti_bot_gw.Admin.Store.Status.{active}
use anti_bot_gw.Admin.Login.{
  Form, Config, State, Answer, user_validate_username, status_eq, start_session, answer_of,
  login_user, clean_name, login_form, login_submit,
}
use anti_bot_gw.Admin.Login.Answer.{signed_in}

status_eq-eq : (a b : Status) → status_eq a b ≡ true → a ≡ b
status_eq-eq Status.active Status.active h = refl
status_eq-eq Status.disabled Status.disabled h = refl
status_eq-eq Status.pending Status.pending h = refl
status_eq-eq Status.active Status.disabled h = cc
status_eq-eq Status.active Status.pending h = cc
status_eq-eq Status.disabled Status.active h = cc
status_eq-eq Status.disabled Status.pending h = cc
status_eq-eq Status.pending Status.active h = cc
status_eq-eq Status.pending Status.disabled h = cc

module _ (cfg : Config) (now : ℕ) (sid : Text) (ip : String) (ua : Text) where
  login_user_sound :
      (username : Text) (form : Form) (o : Option User) (s s' : Store) (token csrf next : Text)
      → login_user cfg now sid ip ua username form o s ≡ (s', signed_in token csrf next)
      → (u : User) × (o ≡ some u)
        × (u.status ≡ active)
        × (password_verify cfg.kdf form.password u.password_hash ≡ true)
        × ((s', signed_in token csrf next)
            ≡ answer_of cfg form.next_url (start_session cfg now sid ip ua username s))
  login_user_sound username form none s s' token csrf next h = absurd (ground (arith, h))
  login_user_sound username form (some u) s s' token csrf next h = (
    u,
    refl,
    ground (arith, h, status_eq-eq u.status active),
    ground (arith, h),
    ground (arith, h),
  )

  module _ (users : Dict Text User) where
    -- What a login that succeeds has been through.
    abbrev pub Accepted : Form → User → Store → Store → Answer → Type 0
    Accepted form u s s' answer =
        (user_validate_username (clean_name form.username) ≡ none)
        × (is_nil form.password ≡ false)
        × (get (clean_name form.username) users ≡ some u)
        × (u.status ≡ active)
        × (password_verify cfg.kdf form.password u.password_hash ≡ true)
        × ((s', answer)
            ≡ answer_of cfg form.next_url
                (start_session cfg now sid ip ua (clean_name form.username) s))

    login_form_sound :
        (o : Option Form) (s s' : Store) (token csrf next : Text)
        → login_form cfg now sid ip ua users o s ≡ (s', signed_in token csrf next)
        → (form : Form) × (u : User) × (o ≡ some form)
          × Accepted form u s s' (signed_in token csrf next)
    login_form_sound none s s' token csrf next h = absurd (ground (arith, h))
    login_form_sound (some form) s s' token csrf next h =
        elim (Option-cases (user_validate_username (clean_name form.username))) [
          | inr (e, bad) ↦ absurd (ground (arith, h, bad))
          | inl fine ↦ elim (Bool-cases (is_nil form.password)) [
            | inl empty ↦ absurd (ground (arith, h, fine, empty))
            | inr given ↦
                let (u, found, on, right, made) =
                  login_user_sound (clean_name form.username) form
                    (get (clean_name form.username) users) s s' token csrf next
                    (ground (arith, h, fine, given)) in
                (form, u, refl, (fine, given, found, on, right, made))
          ]
        ]

    -- Whoever is signed in was let through by the limit on logins, gave a well-formed name that is in
    -- the table as an active user, and the password that the user's stored hash accepts; the answer
    -- holds the new session's token, its anti-forgery token and the place to go to.
    pub login_sound :
        (o : Option Form) (st st' : State) (token csrf next : Text)
        → login_submit cfg now sid ip ua users o st ≡ (st', signed_in token csrf next)
        → (form : Form) × (u : User) × (o ≡ some form)
          × ((login_rate_limit now ip st.windows).1 ≡ true)
          × Accepted form u st.store st'.store (signed_in token csrf next)
    unfolding login_submit
    login_sound o st st' token csrf next h =
        elim (Bool-cases (login_rate_limit now ip st.windows).1) [
          | inr limited ↦ absurd (ground (arith, h, limited))
          | inl allowed ↦
              let (form, u, given, accepted) =
                login_form_sound o st.store st'.store token csrf next
                  (ground (arith, h, allowed)) in
              (form, u, given, allowed, accepted)
        ]
