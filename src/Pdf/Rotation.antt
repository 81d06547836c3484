-- ===== src/Pdf/Rotation.antt =====
-- The rotation of keys while the cache answers.
use memberclass_backend_gola.Common.{
  ℕ, zero, suc, ◌+◌, ◌-◌, ◌≤◌, ◌<◌, ◌≡◌, refl, sym, ap, ◌∙◌, ◌≢◌, ◌⊎◌, inl, inr, Bool, true, false,
  Option, none, some, List, [], ◌∷◌, arith, if◌then◌else◌, Bool-cases, length, GoString, str, ◌===◌,
  text_eq_refl, text_eq_iff, has_text, text_differs,
}
use mathlib.Core.List.{append_cancel_left}
use memberclass_backend_gola.RateLimit.Cache.{ok, Redis, cache_set, cache_exists}
use memberclass_backend_gola.Pdf.Keys.{
  blacklist_entry, blacklist_ttl, Served, served, spent, found, get_active_key, active_or_next,
  blacklist_key, after_key, with_active_key, rotate, Answered, token_and_task,
  get_token_and_create_task,
}

-- What the documentation of Redis says of EXISTS and SET while no command fails and no key expires:
-- `holds k s` tells whether key k is set in state s.
pub record Remembers (r : Redis) (holds : GoString → r.State → Bool) : Type 0 where
  pub exists_lem :
      (k : GoString) (s : r.State) → r.exists k s ≡ (ok (if holds k s then 1 else 0), s)
  pub set_lem :
      (k v : GoString) (e : ℕ) (s : r.State)
      → (holds k (r.set k v e s).1 ≡ true)
        × ((j : GoString) → j ≢ k → holds j (r.set k v e s).1 ≡ holds j s)

module _ (r : Redis) (holds : GoString → r.State → Bool) (law : Remembers r holds) where
  open r use {State}

  -- The keys that are not on the blacklist.
  active : List GoString → State → ℕ
  active [] s = 0
  active (k ∷ ks) s = (if holds (blacklist_entry k) s then 0 else 1) + active ks s

  get_active_key_cons :
      (k : GoString) (ks : List GoString) (s : State)
      → get_active_key r (k ∷ ks) s
        ≡ (if holds (blacklist_entry k) s then get_active_key r ks s else (some k, s))
  unfolding get_active_key active_or_next cache_exists
  get_active_key_cons k ks s = elim (Bool-cases (holds (blacklist_entry k) s)) [
    | inl held ↦ rw (law.exists_lem (blacklist_entry k) s, held) refl
    | inr free ↦ rw (law.exists_lem (blacklist_entry k) s, free) refl
  ]

  get_active_key_held :
      (k : GoString) (ks : List GoString) (s : State)
      → holds (blacklist_entry k) s ≡ true
      → get_active_key r (k ∷ ks) s ≡ get_active_key r ks s
  get_active_key_held k ks s held = get_active_key_cons k ks s ∙ (rw held refl)

  has_text_later :
      (j k : GoString) (ks : List GoString) → has_text j ks ≡ true → has_text j (k ∷ ks) ≡ true
  unfolding has_text
  has_text_later j k ks listed = ground (arith, j === k, listed)

  -- While a key is active, an active one of the keys is found, and asking changes nothing.
  get_active_key-some :
      (ks : List GoString) (s : State)
      → 0 < active ks s
      → (k : GoString) × (get_active_key r ks s ≡ (some k, s))
        × (holds (blacklist_entry k) s ≡ false)
        × (has_text k ks ≡ true)
  unfolding active has_text
  get_active_key-some [] s h = absurd (omega arith)
  get_active_key-some (k ∷ ks) s h = elim (Bool-cases (holds (blacklist_entry k) s)) [
    | inl held ↦
        let later : 0 < 0 + active ks s = rw held at h in
        let (j, it, free, listed) = get_active_key-some ks s (omega (arith, later)) in
        (j, get_active_key_held k ks s held ∙ it, free, has_text_later j k ks listed)
    | inr free ↦ (k, get_active_key_cons k ks s ∙ (rw free refl), free, rw (text_eq_refl k) refl)
  ]

  active-positive :
      (w : GoString) (ks : List GoString) (s : State)
      → has_text w ks ≡ true
      → holds (blacklist_entry w) s ≡ false
      → 0 < active ks s
  unfolding active has_text
  active-positive w [] s listed free = cc listed
  active-positive w (k ∷ ks) s listed free = elim (Bool-cases (w === k)) [
    | inl same ↦
        let it = (text_eq_iff w k).0 same in
        let out : holds (blacklist_entry k) s ≡ false = rw (sym it) free in rw out (omega arith)
    | inr other ↦ omega (arith, active-positive w ks s (rw other at listed) free)
  ]

  active-length : (ks : List GoString) (s : State) → active ks s ≤ length ks
  unfolding active
  active-length [] s = omega arith
  active-length (k ∷ ks) s = elim (Bool-cases (holds (blacklist_entry k) s)) [
    | inl held ↦ rw held (omega (arith, active-length ks s))
    | inr free ↦ rw free (omega (arith, active-length ks s))
  ]

  module _ (k : GoString) (s t : State) (held_now : holds (blacklist_entry k) t ≡ true)
      (others : (j : GoString) → j ≢ blacklist_entry k → holds j t ≡ holds j s) where
    kept : (j : GoString) → j ≢ k → holds (blacklist_entry j) t ≡ holds (blacklist_entry j) s
    kept j differs =
        others (blacklist_entry j)
          (λ e. differs (append_cancel_left (str "ilovepdf_blacklist:") j k e))

    -- Blacklisting a key makes no other key active.
    active-after : (ks : List GoString) → active ks t ≤ active ks s
    unfolding active
    active-after [] = omega arith
    active-after (j ∷ ks) = elim (Bool-cases (j === k)) [
      | inl same ↦
          let it = (text_eq_iff j k).0 same in
          let held : holds (blacklist_entry j) t ≡ true = rw it held_now in
          rw held (omega (arith, active-after ks))
      | inr other ↦ rw (kept j (text_differs j k other)) (omega (arith, active-after ks))
    ]

    active-fewer :
        (ks : List GoString)
        → has_text k ks ≡ true
        → holds (blacklist_entry k) s ≡ false
        → active ks t < active ks s
    unfolding active has_text
    active-fewer [] listed free = cc listed
    active-fewer (j ∷ ks) listed free = elim (Bool-cases (k === j)) [
      | inl same ↦
          let it = (text_eq_iff k j).0 same in
          let held : holds (blacklist_entry j) t ≡ true = rw (sym it) held_now in
          let was : holds (blacklist_entry j) s ≡ false = rw (sym it) free in
          rw (held, was) (omega (arith, active-after ks))
      | inr other ↦
          rw (kept j (λ e. text_differs k j other (sym e)))
            (omega (arith, active-fewer ks (rw other at listed) free))
    ]

  module _ {A : Type 0} (use_key : GoString → ℕ → Served A) (keys : List GoString)
      (w : GoString) where
    rotate_found :
        (total left : ℕ) (last : Option GoString) (s : State)
        → ((k : GoString) (n : ℕ)
            → ((a : A) × (use_key k n ≡ served a))
              ⊎ ((text : GoString) × (use_key k n ≡ spent text)))
        → ((n : ℕ) → (a : A) × (use_key w n ≡ served a))
        → has_text w keys ≡ true
        → holds (blacklist_entry w) s ≡ false
        → active keys s ≤ left
        → (a : A) × (s' : State) × (rotate r use_key keys total left last s ≡ (found a, s'))
    unfolding rotate with_active_key after_key blacklist_key cache_set
    rotate_found total zero last s tries works listed free enough =
        absurd (omega (arith, active-positive w keys s listed free))
    rotate_found total (suc left) last s tries works listed free enough =
        let (k, finds, k_free, k_listed) =
          get_active_key-some keys s (active-positive w keys s listed free) in
        elim (tries k (total - suc left)) [
          | inl (a, gives) ↦ (a, s, rw (finds, gives) refl)
          | inr (text, fails) ↦
              let (gone, others) =
                law.set_lem (blacklist_entry k) (str "exhausted") blacklist_ttl s in
              let (_, answer) = works (total - suc left) in
              let differs : w ≢ k =
                λ e. clash (sym answer ∙ (ap (λ j. use_key j (total - suc left)) e ∙ fails)) in
              let fewer = active-fewer k s _ gone others keys k_listed k_free in
              let (a, s', rest) =
                rotate_found total left (some text) _ tries works listed
                  (kept k s _ gone others w differs ∙ free) (omega (arith, fewer)) in
              (a, s', rw (finds, fails) rest)
        ]
      where
        clash : {a : A} {text : GoString} → served a ≡ spent text → ⊥
        clash e = cc e

  -- GetTokenAndCreateTask finds a token and a task if one of the loaded keys is off the blacklist and
  -- serves at every attempt, whatever the other keys do, as long as they fail only by their credits.
  -- As many attempts as there are keys are enough, since the cache answers.
  pub get_token_and_create_task-found :
      {Token Task : Type 0} (try_authenticate : GoString → ℕ → Answered Token)
      (create_task : Token → ℕ → Answered Task) (keys : List GoString) (w : GoString) (s : State)
      → ((k : GoString) (n : ℕ)
          → ((a : Token × Task) × (token_and_task create_task n (try_authenticate k n) ≡ served a))
            ⊎ ((text : GoString) × (token_and_task create_task n (try_authenticate k n)
                  ≡ spent text)))
      → ((n : ℕ)
          → (a : Token × Task) × (token_and_task create_task n (try_authenticate w n) ≡ served a))
      → has_text w keys ≡ true
      → holds (blacklist_entry w) s ≡ false
      → (a : Token × Task) × (s' : State) × (get_token_and_create_task r try_authenticate
            create_task keys s
          ≡ (found a, s'))
  unfolding get_token_and_create_task
  get_token_and_create_task-found try_authenticate create_task keys w s tries works listed free =
      rotate_found (λ k n. token_and_task create_task n (try_authenticate k n)) keys w (length keys)
        (length keys) none s tries works listed free (active-length keys s)
