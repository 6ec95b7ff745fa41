-- ===== src/System/Json.antt =====
-- nla-system-database.mjs: JSON values, and `assertNoSecrets`.
use next_level_agent.Base.{
  ℕ, zero, suc, ◌≤◌, max, String, Bool, true, false, not, ◌&&◌, ◌||◌, ◌≡◌, refl, sym, ◌∙◌, ◌↔◌, ltb,
  leb, arith,
}
use next_level_agent.Base.Result.{Result, ok, err, ◌>>◌, throw_if}
use next_level_agent.System.Names.{SystemError, failed, Host}

-- A number is in hundredths; one that is negative or infinite is `other_number`.
mutual
  pub data Json : Type 0 where
    null other_number : Json
    boolean : Bool → Json
    number : ℕ → Json
    text : String → Json
    array : Items → Json
    object : Members → Json

  pub data Items : Type 0 where
    no_items : Items
    item : Json → Items → Items

  pub data Members : Type 0 where
    no_members : Members
    member : String → Json → Members → Members

-- `fuel` is what is left of the 24 levels: a value at depth n has 25 - n.
unfoldable mutual
  pub assert_no_secrets : Host → ℕ → Json → Result SystemError (Unit {0})
  assert_no_secrets host zero value = err (failed "value is nested too deeply")
  assert_no_secrets host (suc levels) null = ok tt
  assert_no_secrets host (suc levels) other_number = ok tt
  assert_no_secrets host (suc levels) (boolean b) = ok tt
  assert_no_secrets host (suc levels) (number n) = ok tt
  assert_no_secrets host (suc levels) (text s) =
      throw_if (host.has_secret s) (failed "value appears to contain a secret")
  assert_no_secrets host (suc levels) (array items) = assert_items host levels items
  assert_no_secrets host (suc levels) (object members) = assert_members host levels members

  assert_items : Host → ℕ → Items → Result SystemError (Unit {0})
  assert_items host levels no_items = ok tt
  assert_items host levels (item value rest) =
      assert_no_secrets host levels value >> assert_items host levels rest

  assert_members : Host → ℕ → Members → Result SystemError (Unit {0})
  assert_members host levels no_members = ok tt
  assert_members host levels (member key value rest) =
      throw_if (host.is_secret_key key) (failed "value contains a secret field")
      >> assert_no_secrets host levels value
      >> assert_members host levels rest

-- An independent description: how deep a value is nested, and whether a secret stands anywhere in it.
unfoldable mutual
  pub depth : Json → ℕ
  depth (array items) = depth_items items
  depth (object members) = depth_members members
  depth _ = 0

  depth_items : Items → ℕ
  depth_items no_items = 0
  depth_items (item value rest) = max (suc (depth value)) (depth_items rest)

  depth_members : Members → ℕ
  depth_members no_members = 0
  depth_members (member key value rest) = max (suc (depth value)) (depth_members rest)

unfoldable mutual
  pub holds_secret : Host → Json → Bool
  holds_secret host (text s) = host.has_secret s
  holds_secret host (array items) = items_hold_secret host items
  holds_secret host (object members) = members_hold_secret host members
  holds_secret host _ = false

  items_hold_secret : Host → Items → Bool
  items_hold_secret host no_items = false
  items_hold_secret host (item value rest) = holds_secret host value || items_hold_secret host rest

  members_hold_secret : Host → Members → Bool
  members_hold_secret host no_members = false
  members_hold_secret host (member key value rest) =
      host.is_secret_key key || holds_secret host value || members_hold_secret host rest

abbrev passes : Result SystemError (Unit {0}) → Bool
passes (ok u) = true
passes (err e) = false

passes->> : (r s : Result SystemError (Unit {0})) → passes (r >> s) ≡ (passes r && passes s)
passes->> (ok tt) s = refl
passes->> (err e) s = refl

shifted_test : (a b : ℕ) (c : Bool) → (leb a b && c) ≡ (ltb a (suc b) && c)
shifted_test a b c = ground arith

both_pass :
    (a b n : ℕ) (c d : Bool)
    → ((ltb a n && not c) && (leb b n && not d)) ≡ (leb (max (suc a) b) n && not (c || d))
both_pass a b n c d = ground arith

named_passes :
    (a b n : ℕ) (s c d : Bool)
    → (not s && ((ltb a n && not c) && (leb b n && not d)))
      ≡ (leb (max (suc a) b) n && not (s || c || d))
named_passes a b n s c d = ground arith

passes-throw_if : (b : Bool) (e : SystemError) → passes (throw_if b e) ≡ not b
passes-throw_if true e = refl
passes-throw_if false e = refl

module _ (host : Host) where
  mutual
    unfolding assert_no_secrets depth holds_secret

    json_passes :
        (levels : ℕ) (v : Json)
        → passes (assert_no_secrets host levels v)
          ≡ (ltb (depth v) levels && not (holds_secret host v))
    json_passes zero v = ground arith
    json_passes (suc levels) null = ground arith
    json_passes (suc levels) other_number = ground arith
    json_passes (suc levels) (boolean b) = ground arith
    json_passes (suc levels) (number n) = ground arith
    json_passes (suc levels) (text s) = ground arith
    json_passes (suc levels) (array items) =
        items_pass levels items
        ∙ shifted_test (depth_items items) levels (not (items_hold_secret host items))
    json_passes (suc levels) (object members) =
        members_pass levels members
        ∙ shifted_test (depth_members members) levels (not (members_hold_secret host members))

    items_pass :
        (levels : ℕ) (vs : Items)
        → passes (assert_items host levels vs)
          ≡ (leb (depth_items vs) levels && not (items_hold_secret host vs))
    items_pass levels no_items = ground arith
    items_pass levels (item v rest) =
        rw (passes->>, json_passes levels v, items_pass levels rest)
          (both_pass (depth v) (depth_items rest) levels (holds_secret host v)
            (items_hold_secret host rest))

    members_pass :
        (levels : ℕ) (vs : Members)
        → passes (assert_members host levels vs)
          ≡ (leb (depth_members vs) levels && not (members_hold_secret host vs))
    members_pass levels no_members = ground arith
    members_pass levels (member key v rest) =
        rw (passes->>, passes->>, passes-throw_if, json_passes levels v, members_pass levels rest)
          (named_passes (depth v) (depth_members rest) levels (host.is_secret_key key)
            (holds_secret host v) (members_hold_secret host rest))

passes-eq : (r : Result SystemError (Unit {0})) → (passes r ≡ true) ↔ (r ≡ ok tt)
passes-eq (ok tt) = (λ h. refl, λ h. refl)
passes-eq (err e) = (λ h. absurd cc, λ h. absurd cc)

bounded_and : (a : ℕ) (c : Bool) → ((ltb a 25 && not c) ≡ true) ↔ (a ≤ 24) × (c ≡ false)
bounded_and a c = ground arith

-- A value passes the test exactly when it is nested 24 levels deep at most, and neither a text nor the
-- name of a field in it, at any depth, looks like a secret.
pub assert_no_secrets_iff :
    (host : Host) (v : Json)
    → (assert_no_secrets host 25 v ≡ ok tt) ↔ (depth v ≤ 24) × (holds_secret host v ≡ false)
assert_no_secrets_iff host v =
    let (there, back) = bounded_and (depth v) (holds_secret host v) in
    let (of_passes, to_passes) = passes-eq (assert_no_secrets host 25 v) in
    (
      λ h. there (sym (json_passes host 25 v) ∙ to_passes h),
      λ h. of_passes (json_passes host 25 v ∙ back h),
    )
