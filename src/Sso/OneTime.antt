-- ===== src/Sso/OneTime.antt =====
-- A token works once, and for five minutes.
use memberclass_backend_gola.Sso.Tokens.{
  Directory, is_member, find_token, SsoMember, update_member, validate_and_consume_sso_token,
  SsoUser, consumed, holds_token, granted, consume_until, consume_found, validate_sso_token, denied,
  member_class_error, used_message,
}
use memberclass_backend_gola.Common.{
  refl, sym, ap, ◌∙◌, [], Bool-cases, text_eq_refl, arith, inl, inr, ◌≤◌, none, true, false, ℕ, ◌≤◌,
  ◌≡◌, refl, sym, ap, ◌∙◌, inl, inr, true, false, Option, none, some, List, [], ◌∷◌, arith, ltb,
  if◌then◌else◌, Bool-cases, is_some, GoString, text_eq_refl, is_empty,
}

abbrev touched : GoString → GoString → ℕ → GoString → SsoMember → SsoMember
touched user_id tenant_id now ip m = if is_member user_id tenant_id m then consumed now ip m else m

touched-sso_token :
    (user_id tenant_id : GoString) (now : ℕ) (ip : GoString) (m : SsoMember)
    → (touched user_id tenant_id now ip m).sso_token ≡ m.sso_token
touched-sso_token user_id tenant_id now ip m = elim (Bool-cases (is_member user_id tenant_id m)) [
  | inl member ↦ rw member refl
  | inr other ↦ rw other refl
]

-- Consuming keeps the tokens, so that the same row is found.
find_token-consumed :
    (token_hash user_id tenant_id ip : GoString) (now : ℕ) (ms : List SsoMember)
    → find_token token_hash (update_member user_id tenant_id (consumed now ip) ms)
      ≡ (elim (find_token token_hash ms) [
        | none ↦ none
        | some m ↦ some (touched user_id tenant_id now ip m)
      ])
unfolding find_token update_member
find_token-consumed token_hash user_id tenant_id ip now [] = refl
find_token-consumed token_hash user_id tenant_id ip now (k ∷ ks) =
    let ih = find_token-consumed token_hash user_id tenant_id ip now ks in
    let same = ap (holds_token token_hash) (touched-sso_token user_id tenant_id now ip k) in
    elim (Bool-cases (holds_token token_hash k.sso_token)) [
      | inl holds ↦ rw (same ∙ holds, holds) refl
      | inr lacks ↦ rw (same ∙ lacks, lacks) ih
    ]

is_member_self : (m : SsoMember) → is_member m.user_id m.tenant_id m ≡ true
unfolding is_member
is_member_self m = rw (text_eq_refl m.user_id, text_eq_refl m.tenant_id) refl

module _ (dir : Directory) (hash : GoString → GoString) where
  -- What an accepted token says of its row: it was not used, and is in time; now it is used.
  record Spent (m : SsoMember) (now : ℕ) (ip : GoString) (ms ms' : List SsoMember) : Type 0 where
    until_time : ℕ
    ends_at : m.sso_token_valid_until ≡ some until_time
    unused : is_some m.sso_token_used_at ≡ false
    in_time : now ≤ until_time
    after : ms' ≡ update_member m.user_id m.tenant_id (consumed now ip) ms

  consume_until-Spent :
      (o : Option ℕ) (m : SsoMember) (now : ℕ) (ip : GoString) (ms ms' : List SsoMember)
      (user : SsoUser)
      → m.sso_token_valid_until ≡ o
      → consume_until dir hash o m now ip ms ≡ (granted user, ms')
      → Spent m now ip ms ms'
  unfolding consume_until
  consume_until-Spent none m now ip ms ms' user ends e = cc (ap (λ r. r.0) e)
  consume_until-Spent (some v) m now ip ms ms' user ends e =
      elim (Bool-cases (is_some m.sso_token_used_at)) [
        | inl used ↦ cc (ap (λ r. r.0) (rw used at e))
        | inr unused ↦ elim (Bool-cases (ltb v now)) [
          | inl late ↦ cc (ap (λ r. r.0) (rw (unused, late) at e))
          | inr early ↦ record {
            until_time = v;
            ends_at = ends;
            unused = unused;
            in_time = ground arith;
            after = sym (ap (λ r. r.1) (rw (unused, early) at e));
          }
        ]
      ]

  consume_found-Spent :
      (o : Option SsoMember) (now : ℕ) (ip : GoString) (ms ms' : List SsoMember) (user : SsoUser)
      → consume_found dir hash o now ip ms ≡ (granted user, ms')
      → (m : SsoMember) × (o ≡ some m) × Spent m now ip ms ms'
  unfolding consume_found
  consume_found-Spent none now ip ms ms' user e = cc (ap (λ r. r.0) e)
  consume_found-Spent (some m) now ip ms ms' user e =
      (m, refl, consume_until-Spent m.sso_token_valid_until m now ip ms ms' user refl e)

  -- A token that has been accepted is refused from then on, at whatever time and address, and the
  -- table stays as it is.
  pub validate_sso_token_once :
      (token : GoString) (now : ℕ) (ip : GoString) (ms ms' : List SsoMember) (user : SsoUser)
      (now2 : ℕ) (ip2 : GoString)
      → validate_sso_token dir hash token now ip ms ≡ (granted user, ms')
      → validate_sso_token dir hash token now2 ip2 ms'
        ≡ (denied (member_class_error 401 used_message), ms')
  unfolding validate_sso_token validate_and_consume_sso_token consume_found consume_until
  validate_sso_token_once token now ip ms ms' user now2 ip2 e = elim (Bool-cases (is_empty token)) [
    | inl nothing ↦ cc (ap (λ r. r.0) (rw nothing at e))
    | inr has ↦
        let (m, found, spent) =
          consume_found-Spent (find_token (hash token) ms) now ip ms ms' user (rw has at e) in
        let again : find_token (hash token) ms' ≡ some (consumed now ip m) =
          ap (find_token (hash token)) spent.after
          ∙ find_token-consumed (hash token) m.user_id m.tenant_id ip now ms
          ∙ rw (found, is_member_self m) refl in
        rw (has, again, spent.ends_at) refl
  ]
