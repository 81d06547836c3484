-- ===== src/Auth/Sessions.antt =====
-- Which cookies open a session.
use memberclass_backend_gola.Common.{
  ◌≡◌, refl, sym, ap, ◌∙◌, ◌↔◌, ◌⊎◌, inl, inr, true, false, Option, none, some, arith, Bool-cases,
  Option-cases, GoString, has_text, is_empty,
}
use memberclass_backend_gola.Common.Int.{ℤ, pos, ltb_ℤ}
use memberclass_backend_gola.Auth.Replies.{AuthError, member_class_error, other_error, admitted}
use memberclass_backend_gola.Auth.Session.{
  SessionPayload, session_secret, Users, validate_user_exists, handle_validation_error, is_expired,
  user_validated, session_decrypted, authenticate_session,
}

-- A cookie that decrypts to this payload, which is in time or has no expiry, and whose user exists.
pub record IsSession (decrypt : GoString → GoString → Option SessionPayload) (secret : GoString)
    (now : ℤ) (db : Users) (sent : Option GoString) (payload : SessionPayload) : Type 0 where
  pub cookie : GoString
  pub has_cookie : sent ≡ some cookie
  pub decrypts : decrypt secret cookie ≡ some payload
  pub in_time : (ltb_ℤ (pos 0) payload.exp ≡ false) ⊎ (ltb_ℤ payload.exp now ≡ false)
  pub has_user : is_empty payload.user_id ≡ false
  pub answers : db.exists_fails ≡ false
  pub is_known : has_text payload.user_id db.ids ≡ true

validate_user_exists-none :
    (user : GoString) (db : Users)
    → (validate_user_exists user db ≡ none)
      ↔ ((is_empty user ≡ false) × (db.exists_fails ≡ false) × (has_text user db.ids ≡ true))
unfolding validate_user_exists
validate_user_exists-none user db =
    ground (arith, is_empty user, db.exists_fails, has_text user db.ids)

module _ (decrypt : GoString → GoString → Option SessionPayload) where
  user_validated_admitted :
      (p payload : SessionPayload) (error : Option AuthError)
      → user_validated p error ≡ admitted payload
      → (p ≡ payload) × (error ≡ none)
  unfolding user_validated handle_validation_error
  user_validated_admitted p payload none e = (cc e, refl)
  user_validated_admitted p payload (some (member_class_error code text)) e = cc e
  user_validated_admitted p payload (some (other_error text)) e = cc e

  in_time_iff :
      (now : ℤ) (p : SessionPayload)
      → (is_expired now p ≡ false) ↔ ((ltb_ℤ (pos 0) p.exp ≡ false) ⊎ (ltb_ℤ p.exp now ≡ false))
  unfolding is_expired
  in_time_iff now p = ground (arith, ltb_ℤ (pos 0) p.exp, ltb_ℤ p.exp now)

  session_decrypted_admitted :
      (now : ℤ) (db : Users) (p payload : SessionPayload)
      → session_decrypted now db (some p) ≡ admitted payload
      → (p ≡ payload) × (is_expired now p ≡ false) × (validate_user_exists p.user_id db ≡ none)
  unfolding session_decrypted
  session_decrypted_admitted now db p payload e = elim (Bool-cases (is_expired now p)) [
    | inl late ↦ cc (rw late at e)
    | inr in_time ↦
        let (same, known) =
          user_validated_admitted p payload (validate_user_exists p.user_id db) (rw in_time at e) in
        (same, in_time, known)
  ]

  decrypted_admitted :
      (secret : GoString) (now : ℤ) (db : Users) (cookie : GoString) (payload : SessionPayload)
      → session_decrypted now db (decrypt secret cookie) ≡ admitted payload
      → IsSession decrypt secret now db (some cookie) payload
  unfolding session_decrypted
  decrypted_admitted secret now db cookie payload e = elim (Option-cases (decrypt secret cookie)) [
    | inl unreadable ↦ cc (rw unreadable at e)
    | inr (p, readable) ↦
        let (same, in_time, known) =
          session_decrypted_admitted now db p payload (rw readable at e) in
        let (named, answers, listed) =
          (validate_user_exists-none payload.user_id db).0
            (ap (λ q. validate_user_exists q.user_id db) (sym same) ∙ known) in
        record {
          cookie = cookie;
          has_cookie = refl;
          decrypts = readable ∙ ap some same;
          in_time = (in_time_iff now payload).0 (ap (is_expired now) (sym same) ∙ in_time);
          has_user = named;
          answers = answers;
          is_known = listed;
        }
  ]

  session_admitted :
      (secret : GoString) (now : ℤ) (db : Users) (cookie : GoString) (payload : SessionPayload)
      → decrypt secret cookie ≡ some payload
      → is_expired now payload ≡ false
      → validate_user_exists payload.user_id db ≡ none
      → session_decrypted now db (decrypt secret cookie) ≡ admitted payload
  unfolding session_decrypted user_validated
  session_admitted secret now db cookie payload readable in_time known =
      rw (readable, in_time, known) refl

  -- A request is let through with a payload exactly where its cookie decrypts to it under the secret,
  -- it has not expired or its expiry is not positive, and its user exists. The database answers then.
  pub authenticate_session-IsSession :
      (env : GoString) (now : ℤ) (db : Users) (sent : Option GoString) (payload : SessionPayload)
      → (authenticate_session decrypt env now db sent ≡ admitted payload)
        ↔ IsSession decrypt (session_secret env) now db sent payload
  unfolding authenticate_session
  authenticate_session-IsSession env now db none payload = (λ e. cc e, λ s. cc (s.has_cookie))
  authenticate_session-IsSession env now db (some cookie) payload = (
    decrypted_admitted (session_secret env) now db cookie payload,
    λ s.
        let same : s.cookie ≡ cookie = cc (s.has_cookie) in
        session_admitted (session_secret env) now db cookie payload
          (ap (decrypt (session_secret env)) (sym same) ∙ s.decrypts)
          ((in_time_iff now payload).1 s.in_time)
          ((validate_user_exists-none payload.user_id db).1 (s.has_user, s.answers, s.is_known)),
  )
