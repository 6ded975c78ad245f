-- ===== src/Explore/Reset/Grown.antt =====
-- Surfaces that the exploration grows, and what a reset can tell of the growth.
use mathlib.Core.List.{append-nil, append_assoc}
use antminer_chip_tuner.Prelude.Membership.{In, here, there, In-append_left, In-append_right}
use antminer_chip_tuner.Floats.{Floats}
use antminer_chip_tuner.Prelude.{
  ◌≡◌, refl, true, false, none, List, [], ◌∷◌, ◌++◌, arith, ap, ◌∙◌, sym, subst, Bool-cases, inl,
  inr, All, All-append, is_some,
}
use antminer_chip_tuner.Explore.Surface.{Key, key_eq, has_key, Cell, Surface, by_key, keys_of}
use antminer_chip_tuner.Explore.Surface.Lookup.{key_eq→≡, key_eq_refl}
use antminer_chip_tuner.Explore.Fine.Convert.{is_some-by_key}
use antminer_chip_tuner.Explore.Fine.Anchors.{Inside, All-map-All}
use antminer_chip_tuner.Explore.Reset.{coarse_part}
use antminer_chip_tuner.Explore.Reset.Undo.{IsBare}

has_key-In : (k : Key) (ks : List Key) → In k ks → has_key k ks ≡ true
unfolding has_key
has_key-In k [] i = elim i [ ]
has_key-In k (j ∷ ks) here = ground (arith, key_eq_refl k)
has_key-In k (j ∷ ks) (there i) = ground (arith, has_key-In k ks i)

module _ (fl : Floats) where
  abbrev pub Measured : Surface fl → Key → Type 0
  Measured s k = In k (keys_of fl s)

  -- Every coarse cell names no anchor, and every anchor that a fine cell names has been measured.
  pub record IsGrown (s : Surface fl) : Type 0 where
    pub bare : All (IsBare fl) s
    pub anchored : All (Inside fl (Measured s)) s

  keys_of-append : (s t : Surface fl) → keys_of fl (s ++ t) ≡ keys_of fl s ++ keys_of fl t
  keys_of-append [] t = refl
  keys_of-append (e ∷ es) t = ap (λ ks. e.key ∷ ks) (keys_of-append es t)

  pub Measured-differs :
      (s : Surface fl) (k a : Key) → Measured s a → by_key fl s k ≡ none → key_eq a k ≡ false
  Measured-differs s k a m n = elim (Bool-cases (key_eq a k)) [
    | inr e ↦ e
    | inl e ↦
        let h : has_key k (keys_of fl s) ≡ true =
          has_key-In k (keys_of fl s) (subst (Measured s) (key_eq→≡ a k e) m) in
        absurd (cc (is_some-by_key fl s k, ap is_some n, h))
  ]

  pub In-keys-append :
      (s : Surface fl) (e : Cell fl) (k : Key)
      → In k (keys_of fl s)
      → In k (keys_of fl (s ++ e ∷ []))
  In-keys-append s e k m =
      subst (In k) (sym (keys_of-append s (e ∷ []))) (In-append_left (keys_of fl (e ∷ [])) m)

  pub measured_last : (s : Surface fl) (e : Cell fl) → In e.key (keys_of fl (s ++ e ∷ []))
  measured_last s e =
      subst (In e.key) (sym (keys_of-append s (e ∷ []))) (In-append_right (keys_of fl s) here)

  pub grow :
      (s : Surface fl) (P : Key → Type 0) (e : Cell fl)
      → ((k : Key) → P k → In k (keys_of fl s))
      → All (Inside fl P) s
      → Inside fl (Measured (s ++ e ∷ [])) e
      → All (Inside fl (Measured (s ++ e ∷ []))) (s ++ e ∷ [])
  grow s P e m h i =
      All-append (Inside fl (Measured (s ++ e ∷ []))) s (e ∷ [])
        (All-map-All (Inside fl P) (Inside fl (Measured (s ++ e ∷ []))) s
          (λ x j. record {
            coarse_in = λ q. widen x.key (j.coarse_in q);
            anchor_in = λ k q. widen k (j.anchor_in k q);
          })
          h)
        (i, tt)
    where
      widen : (k : Key) → P k → Measured (s ++ e ∷ []) k
      widen k p = In-keys-append s e k (m k p)

  -- The surface grew by these coarse cells, as far as a reset can tell.
  abbrev pub Added : Surface fl → Surface fl → Surface fl → Type 0
  Added cs s t = coarse_part fl t ≡ coarse_part fl s ++ cs

  pub Added-refl : (s t : Surface fl) → coarse_part fl t ≡ coarse_part fl s → Added [] s t
  Added-refl s t h = h ∙ sym (append-nil (coarse_part fl s))

  pub Added-trans : (cs ds s t u : Surface fl) → Added cs s t → Added ds t u → Added (cs ++ ds) s u
  Added-trans cs ds s t u e f = f ∙ ap (λ x. x ++ ds) e ∙ append_assoc (coarse_part fl s) cs ds
