-- ===== src/Tools/Cached.antt =====
-- nla-capability-cache.mjs: the cache never changes which tools a role gets.
use next_level_agent.Base.{
  String, true, ◌||◌, not, ◌≡◌, refl, sym, ap, ◌∙◌, Option, none, some, List, [], ◌∷◌, select, any,
  length, Dict, lookup, lookup-insert_self, eq_refl, leb, ltb, arith, if_cases,
}
use next_level_agent.Base.Result.{Result, ok, err, ok_injective}
use next_level_agent.Base.Texts.{same_texts-eq, same_texts_refl, includes}
use next_level_agent.Tools.Profile.{
  Item, Cache, Hashed, Profile, cache_hit, usable, tools_under, served, cached_tools, key_of,
  entry_of, next_cache, serve_profile, catalog_map, has, missing_required, profile_size,
  ProfileError, resolve_role_capability_profile,
}

usable-eq :
    (available : List String) (o : Option (List String)) {tools : List String}
    → usable available o ≡ some tools
    → tools ≡ available
usable-eq available none h = cc
usable-eq available (some ts) {tools} h = ground (arith, same_texts-eq ts available)

module _ (hash : Hashed → String) where
  served-tools :
      (role : String) (ceiling available : List String) (by_id : Dict Item) (cache : Cache)
      (config version : String) (o : Option (List String))
      → ((tools : List String) → o ≡ some tools → tools ≡ available)
      → (served hash role ceiling available by_id cache config version o).tools ≡ available
  served-tools role ceiling available by_id cache config version none h = refl
  served-tools role ceiling available by_id cache config version (some tools) h = h tools refl

  serve_profile-tools :
      (role : String) (ceiling available : List String) (by_id : Dict Item) (cache : Cache)
      (config version : String)
      → (serve_profile hash role ceiling available by_id cache config version).tools ≡ available
  unfolding serve_profile
  serve_profile-tools role ceiling available by_id cache config version =
      served-tools role ceiling available by_id cache config version
        (cached_tools hash role ceiling available by_id cache config version)
        (λ tools h.
          usable-eq available
            (tools_under (key_of hash role ceiling by_id config version)
              (lookup role cache.entries))
            h)

  -- Whatever the cache holds, valid, stale or tampered with, a profile that is resolved has just the
  -- tools of the ceiling that the catalogue offers, in the order of the ceiling.
  pub resolve-tools :
      (role : String) (ceiling required : List String) (catalog : List Item) (cache : Cache)
      (config version : String) {p : Profile}
      → resolve_role_capability_profile hash role ceiling required
          (some catalog)
          cache
          config
          version
        ≡ ok p
      → p.tools ≡ select (has (catalog_map [] catalog)) ceiling
  unfolding resolve_role_capability_profile
  resolve-tools role [] required catalog cache config version h = cc
  resolve-tools role (c ∷ cs) required catalog cache config version {p} h =
      let available = select (has (catalog_map [] catalog)) (c ∷ cs) in
      if_cases Goal (any (λ id. not (includes available id)) required) (err missing_required) _
        (λ _ e. cc)
        (λ _.
          if_cases Goal (ltb (length available) 2 || ltb 5 (length available)) (err profile_size) _
            (λ _ e. cc)
            (λ _ e.
              ap (λ (q : Profile). q.tools) (sym (ok_injective e))
              ∙ serve_profile-tools role (c ∷ cs) available _ cache config version))
        h
    where
      Goal : Result ProfileError Profile → Type 0
      Goal r = r ≡ ok p → p.tools ≡ select (has (catalog_map [] catalog)) (c ∷ cs)

  usable-own :
      (available : List String)
      → leb 2 (length available) ≡ true
      → leb (length available) 5 ≡ true
      → usable available (some available) ≡ some available
  usable-own available lo hi = rw (same_texts_refl available, lo, hi)

  module _ (role : String) (ceiling available : List String) (by_id : Dict Item) (cache : Cache)
      (config version : String) where
    cached_next :
        leb 2 (length available) ≡ true
        → leb (length available) 5 ≡ true
        → cached_tools hash role ceiling available by_id
            (next_cache hash role ceiling available by_id cache config version)
            config
            version
          ≡ some available
    cached_next lo hi =
        rw
          (
            lookup-insert_self role (entry_of hash role ceiling available by_id config version)
                cache.entries,
            eq_refl (key_of hash role ceiling by_id config version),
          )
          (usable-own available lo hi)

    served_again :
        (o : Option (List String))
        → cached_tools hash role ceiling available by_id cache config version ≡ o
        → leb 2 (length available) ≡ true
        → leb (length available) 5 ≡ true
        → cached_tools hash role ceiling available by_id
            (served hash role ceiling available by_id cache config version o).cache
            config
            version
          ≡ some available
    served_again none e lo hi = cached_next lo hi
    served_again (some tools) e lo hi =
        e
        ∙ ap some (
            usable-eq available
              (tools_under (key_of hash role ceiling by_id config version)
                (lookup role cache.entries))
              e)

    -- Serving a second time from the cache that the first left is a hit, with the same tools, and
    -- leaves the cache as it is.
    pub serve_profile_again :
        leb 2 (length available) ≡ true
        → leb (length available) 5 ≡ true
        → let p = serve_profile hash role ceiling available by_id cache config version in
          let q = serve_profile hash role ceiling available by_id p.cache config version in
          (q.source ≡ cache_hit) × (q.tools ≡ p.tools) × (q.cache ≡ p.cache)
    unfolding serve_profile
    serve_profile_again lo hi =
        let o = cached_tools hash role ceiling available by_id cache config version in
        rw (served_again o refl lo hi)
          (refl, sym (serve_profile-tools role ceiling available by_id cache config version), refl)
