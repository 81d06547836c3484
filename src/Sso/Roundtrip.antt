-- ===== src/Sso/Roundtrip.antt =====
-- A token that has been generated is accepted for its user until it expires.
use memberclass_backend_gola.Sso.Tokens.{
  find_token, SsoMember, Directory, validate_sso_token, update_member, generate_sso_token,
  holds_token, validate_and_consume_sso_token, is_member, update_sso_token, GeneratedToken, issued,
  consume_found, consume_until, granted, user_data, SsoUser, denied, member_class_error, consumed,
}
use memberclass_backend_gola.Common.{
  ℕ, ◌+◌, ◌<◌, ◌≡◌, refl, sym, ap, ◌∙◌, inl, inr, true, false, Option, some, List, [], ◌∷◌, arith,
  ltb, if◌then◌else◌, Bool-cases, Option-cases, ltb→lt, length, All, filter_by, GoString, str,
  text_eq_refl, text_eq_iff, is_empty,
}

abbrev pub Fresh : GoString → List SsoMember → Type 0
Fresh token_hash ms = All (λ m. holds_token token_hash m.sso_token ≡ false) ms

find_token-issued :
    (token_hash user_id tenant_id : GoString) (valid_until : ℕ) (ms : List SsoMember)
    → Fresh token_hash ms
    → 0 < length (filter_by (is_member user_id tenant_id) ms)
    → (m : SsoMember) × (find_token token_hash
          (update_member user_id tenant_id (issued token_hash valid_until) ms)
        ≡ some (issued token_hash valid_until m))
      × (is_member user_id tenant_id m ≡ true)
unfolding find_token update_member
find_token-issued token_hash user_id tenant_id valid_until [] fresh h = ground (arith, h)
find_token-issued token_hash user_id tenant_id valid_until (k ∷ ks) fresh h =
    elim (Bool-cases (is_member user_id tenant_id k)) [
      | inl member ↦ (k, rw (member, text_eq_refl token_hash) refl, member)
      | inr other ↦
          let (m, found, member) =
            find_token-issued token_hash user_id tenant_id valid_until ks fresh.1 (rw other at h) in
          (m, rw (other, fresh.0) found, member)
    ]

module _ (dir : Directory) (hash : GoString → GoString) where
  generated :
      (token : GoString) (redirect_url : GoString → Option GoString) (user_id tenant_id : GoString)
      (now : ℕ) (ms ms' : List SsoMember) (g : GeneratedToken)
      → generate_sso_token dir hash (some token) redirect_url user_id tenant_id now ms
        ≡ (granted g, ms')
      → (0 < length (filter_by (is_member user_id tenant_id) ms))
        × (ms' ≡ update_member user_id tenant_id (issued (hash token) (now + 300)) ms)
  unfolding generate_sso_token update_sso_token
  generated token redirect_url user_id tenant_id now ms ms' g e =
      let some_row = ltb 0 (length (filter_by (is_member user_id tenant_id) ms)) in
      elim (Bool-cases (dir.exists_by_id user_id)) [
        | inr unknown ↦ cc (ap (λ r. r.0) (rw unknown at e))
        | inl known ↦ elim (Bool-cases some_row) [
          | inr stranger ↦ cc (ap (λ r. r.0) (rw (known, stranger) at e))
          | inl member ↦ elim (Option-cases (redirect_url token)) [
            | inl bad ↦ cc (ap (λ r. r.0) (rw (known, member, bad) at e))
            | inr (url, good) ↦
                (ltb→lt _ _ member, sym (ap (λ r. r.1) (rw (known, member, good) at e)))
          ]
        ]
      ]

  -- After a token has been generated, whose hash no row held, it is accepted for that user and tenant
  -- until 300 seconds have passed, and refused as expired from then on.
  pub generate_sso_token_roundtrip :
      (token : GoString) (redirect_url : GoString → Option GoString) (user_id tenant_id : GoString)
      (now later : ℕ) (ip : GoString) (ms ms' : List SsoMember) (g : GeneratedToken)
      → is_empty token ≡ false
      → Fresh (hash token) ms
      → generate_sso_token dir hash (some token) redirect_url user_id tenant_id now ms
        ≡ (granted g, ms')
      → (user : SsoUser) × (user.id ≡ user_id)
        × (user.tenant_id ≡ tenant_id)
        × ((validate_sso_token dir hash token later ip ms').0 ≡ (
            if ltb (now + 300) later
            then denied (member_class_error 401 (str "token expirado"))
            else granted user))
  unfolding validate_sso_token validate_and_consume_sso_token consume_found consume_until user_data
      is_member
  generate_sso_token_roundtrip token redirect_url user_id tenant_id now later ip ms ms' g has fresh
        e =
      let (some_row, after) = generated token redirect_url user_id tenant_id now ms ms' g e in
      let (m, found, member) =
        find_token-issued (hash token) user_id tenant_id (now + 300) ms fresh some_row in
      let again : find_token (hash token) ms' ≡ some (issued (hash token) (now + 300) m) =
        ap (find_token (hash token)) after ∙ found in
      let row = issued (hash token) (now + 300) m in
      let user =
        user_data dir hash row (update_member row.user_id row.tenant_id (consumed later ip) ms') in
      (
        user,
        ground (arith, member, text_eq_iff m.user_id user_id),
        ground (arith, member, text_eq_iff m.tenant_id tenant_id),
        elim (Bool-cases (ltb (now + 300) later)) [
          | inl late ↦ rw (has, again, late) refl
          | inr early ↦ rw (has, again, early) refl
        ],
      )
