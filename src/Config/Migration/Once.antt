-- ===== src/Config/Migration/Once.antt =====
-- After a migration there is nothing left to migrate.
use antminer_chip_tuner.Prelude.Membership.{In, here, there}
use antminer_chip_tuner.Prelude.{
  String, ◌≡◌, refl, Bool, true, false, Option, List, [], ◌∷◌, ◌&&◌, not, arith, Bool-cases, inl,
  inr, ◌⊎◌, ◌=ˢ◌, if◌then◌else◌,
}
use antminer_chip_tuner.Prelude.Dict.{Dict, put, pop}
use package.text.Mathlib.TextEquality.{eq_iff}
use antminer_chip_tuner.Config.{Entry}
use antminer_chip_tuner.Config.Effective.{is_v4}
use antminer_chip_tuner.Config.Migration.{
  v4_entry, resolve, is_v3, v3_entries, has_v3_entries, migrate_entry, migrate_entries,
  maybe_run_v3_to_v4_migration,
}

not_held : (a b : Bool) → (a ≡ false) ⊎ (b ≡ true) → a && not b ≡ false
not_held a b h = ground arith

module _ (is_mac : String → Bool) (is_dotted_quad : String → Bool)
    (vendor_mac : String → Entry → Option String) (resolve_mac : String → Option String)
    (synthesize_mac_id : String → String) where
  -- Each entry that is still to be moved has its key among those that wait.
  abbrev IsPending : List String → Dict Entry → Type 0
  IsPending waiting [] = Unit
  IsPending waiting ((k, e) ∷ d) =
      (is_v3 is_mac is_dotted_quad k e ≡ true → In k waiting) × IsPending waiting d

  abbrev keys : Dict Entry → List String
  keys [] = []
  keys ((k, e) ∷ d) = k ∷ keys d

  weaken :
      (x : String) (waiting : List String) (d : Dict Entry)
      → IsPending waiting d
      → IsPending (x ∷ waiting) d
  weaken x waiting [] h = tt
  weaken x waiting ((k, e) ∷ d) h = (λ q. there (h.0 q), weaken x waiting d h.1)

  add-IsPending :
      (k : String) (e : Entry) (d moved : Dict Entry) (b : Bool)
      → is_v3 is_mac is_dotted_quad k e ≡ b
      → IsPending (keys moved) d
      → IsPending (keys (if b then (k, e) ∷ moved else moved)) ((k, e) ∷ d)
  add-IsPending k e d moved true b h = (λ q. here, weaken k (keys moved) d h)
  add-IsPending k e d moved false b h = (λ q. absurd (cc), h)

  v3_entries-IsPending : (d : Dict Entry) → IsPending (keys (v3_entries is_mac is_dotted_quad d)) d
  unfolding v3_entries
  v3_entries-IsPending [] = tt
  v3_entries-IsPending ((k, e) ∷ d) =
      add-IsPending k e d (v3_entries is_mac is_dotted_quad d) (is_v3 is_mac is_dotted_quad k e)
        refl (v3_entries-IsPending d)

  -- Without an entry's key, no entry waits under it.
  In-tail :
      {k x : String} {waiting : List String} → k =ˢ x ≡ false → In k (x ∷ waiting) → In k waiting
  In-tail {k} n here = absurd (ground (arith, eq_iff k k))
  In-tail n (there h) = h

  pop-IsPending :
      (x : String) (waiting : List String) (d : Dict Entry)
      → IsPending (x ∷ waiting) d
      → IsPending waiting (pop x d)
  unfolding pop
  pop-IsPending x waiting [] h = tt
  pop-IsPending x waiting ((k, e) ∷ d) h = elim (Bool-cases (k =ˢ x)) [
    | inl b ↦ rw b (pop-IsPending x waiting d h.1)
    | inr b ↦ rw b (λ q. In-tail b (h.0 q), pop-IsPending x waiting d h.1)
  ]

  put-IsPending :
      (k : String) (e : Entry) (waiting : List String) (d : Dict Entry)
      → is_v4 e ≡ true
      → IsPending waiting d
      → IsPending waiting (put k e d)
  unfolding put
  put-IsPending k e waiting [] v h = (λ q. absurd (ground (arith, v)), tt)
  put-IsPending k e waiting ((j, w) ∷ d) v h = elim (Bool-cases (j =ˢ k)) [
    | inl b ↦ rw b (λ q. absurd (ground (arith, v)), h.1)
    | inr b ↦ rw b (h.0, put-IsPending k e waiting d v h.1)
  ]

  v4_entry-is_v4 : (ip : String) (b : Bool) (e : Entry) → is_v4 (v4_entry ip b e) ≡ true
  unfolding v4_entry is_v4
  v4_entry-is_v4 ip b e = refl

  migrate_entries-IsPending :
      (moved d : Dict Entry)
      → IsPending (keys moved) d
      → IsPending []
          (migrate_entries is_mac is_dotted_quad vendor_mac resolve_mac synthesize_mac_id moved d)
  unfolding migrate_entries migrate_entry
  migrate_entries-IsPending [] d h = h
  migrate_entries-IsPending ((ip, e) ∷ moved) d h =
      let (mac, made) = resolve vendor_mac resolve_mac synthesize_mac_id ip e in
      migrate_entries-IsPending moved (put mac (v4_entry ip made e) (pop ip d)) (
        put-IsPending mac (v4_entry ip made e) (keys moved) (pop ip d) (v4_entry-is_v4 ip made e)
          (pop-IsPending ip (keys moved) d h))

  none_pending : (d : Dict Entry) → IsPending [] d → v3_entries is_mac is_dotted_quad d ≡ []
  unfolding v3_entries
  none_pending [] h = refl
  none_pending ((k, e) ∷ d) h = elim (Bool-cases (is_v3 is_mac is_dotted_quad k e)) [
    | inl b ↦ elim (h.0 b) [ ]
    | inr b ↦ rw b (none_pending d h.1)
  ]

  abbrev run : Bool → Dict Entry → Dict Entry × Bool
  run = maybe_run_v3_to_v4_migration is_mac is_dotted_quad vendor_mac resolve_mac synthesize_mac_id

  none_runs :
      (sentinel : Bool) (d : Dict Entry)
      → v3_entries is_mac is_dotted_quad d ≡ []
      → run sentinel d ≡ (d, false)
  unfolding maybe_run_v3_to_v4_migration migrate_entries
  none_runs sentinel d h =
      elim (Bool-cases (sentinel && not (has_v3_entries is_mac is_dotted_quad d))) [
        | inl b ↦ rw b refl
        | inr b ↦ rw (b, h) refl
      ]

  run_leaves_none :
      (sentinel : Bool) (d : Dict Entry)
      → (sentinel ≡ false) ⊎ (has_v3_entries is_mac is_dotted_quad d ≡ true)
      → IsPending [] (run sentinel d).0
  unfolding maybe_run_v3_to_v4_migration
  run_leaves_none sentinel d h =
      let moved = v3_entries is_mac is_dotted_quad d in
      rw (not_held sentinel (has_v3_entries is_mac is_dotted_quad d) h)
        (migrate_entries-IsPending moved d (v3_entries-IsPending d))

  -- The migration is idempotent: once it has run without being held back by the sentinel file, a
  -- further run, with or without that file, changes no entry and reports that none was moved,
  -- whatever keys the lookups gave, colliding ones included.
  pub migration_idempotent :
      (first second : Bool) (d : Dict Entry)
      → (first ≡ false) ⊎ (has_v3_entries is_mac is_dotted_quad d ≡ true)
      → run second (run first d).0 ≡ ((run first d).0, false)
  migration_idempotent first second d h =
      none_runs second (run first d).0 (none_pending (run first d).0 (run_leaves_none first d h))
