-- ===== src/Explore/Surface/Lookup.antt =====
-- The lookup by key of a surface.
use antminer_chip_tuner.Floats.{Floats}
use antminer_chip_tuner.Prelude.{◌≡◌, refl, true, some, [], ◌∷◌, ◌++◌, arith, if◌then◌else◌}
use antminer_chip_tuner.Explore.Surface.{Key, key_eq, Cell, Surface, by_key}

pub key_eq→≡ : (k j : Key) → key_eq k j ≡ true → k ≡ j
key_eq→≡ (v, f) (w, g) h = ground arith

pub key_eq_refl : (k : Key) → key_eq k k ≡ true
key_eq_refl (v, f) = ground arith

module _ (fl : Floats) where
  -- A new entry is found under its key, and hides none of another key.
  pub by_key-append :
      (s : Surface fl) (e : Cell fl) (k : Key)
      → by_key fl (s ++ e ∷ []) k ≡ (if key_eq k e.key then some e else by_key fl s k)
  unfolding by_key
  by_key-append [] e k = refl
  by_key-append (x ∷ s) e k = ground (arith, by_key-append s e k)

  -- The entry that is found has the key that was looked for.
  pub key-by_key : (s : Surface fl) (k : Key) (e : Cell fl) → by_key fl s k ≡ some e → e.key ≡ k
  unfolding by_key
  key-by_key [] k e h = absurd (cc)
  key-by_key (x ∷ s) k e h = ground (arith, key-by_key s k e, key_eq→≡ k x.key)
