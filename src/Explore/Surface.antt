-- ===== src/Explore/Surface.antt =====
-- The measured surface: its cells, the lookup by key, and the cells ranked by score.
pub mod Lookup
pub mod Ranking
use antminer_chip_tuner.Floats.{Floats}
use antminer_chip_tuner.Prelude.{
  ℕ, ◌-◌, Bool, true, false, Option, none, some, List, [], ◌∷◌, ◌++◌, map, ◌==◌, ◌&&◌, ◌||◌, not,
  if◌then◌else◌, length, take,
}
use antminer_chip_tuner.Profit.{Reading, ScoreContext, score_cell}

-- (voltage_mv, freq_mhz rounded to three decimals)
abbrev pub Key : Type 0
Key = ℕ × ℕ

abbrev pub key_eq : Key → Key → Bool
key_eq (v, f) (w, g) = v == w && f == g

-- k in keys
unfoldable pub has_key : Key → List Key → Bool
has_key k [] = false
has_key k (j ∷ js) = key_eq k j || has_key k js

module _ (fl : Floats) where
  -- An entry of vf_surface. A coarse_anchor that is absent, empty or malformed is none.
  pub record Cell : Type 0 where
    pub key : Key
    pub fine : Bool
    pub coarse_anchor : Option Key
    pub reading : Reading fl

  abbrev pub Surface : Type 0
  Surface = List Cell

  -- The dict of vf_surface_by_key: the last cell of a key counts.
  abbrev earlier : Key → Cell → Option Cell → Option Cell
  earlier k e none = if key_eq k e.key then some e else none
  earlier k e (some later) = some later

  unfoldable pub by_key : Surface → Key → Option Cell
  by_key [] k = none
  by_key (e ∷ es) k = earlier k e (by_key es k)

  abbrev pub score : ScoreContext fl → Cell → Option fl.Num
  score ctx e = score_cell fl (some e.reading) ctx

  -- The cells that pass a test and have a score, with it.
  abbrev pub cons_scored : Option fl.Num → Cell → List (fl.Num × Cell) → List (fl.Num × Cell)
  cons_scored none e rest = rest
  cons_scored (some s) e rest = (s, e) ∷ rest

  unfoldable pub scored : (Cell → Bool) → ScoreContext fl → Surface → List (fl.Num × Cell)
  scored test ctx [] = []
  scored test ctx (e ∷ es) =
      let rest = scored test ctx es in if test e then cons_scored (score ctx e) e rest else rest

  -- list.sort on the scores: stable, comparing by `<` alone.
  unfoldable pub insert_by_score : fl.Num × Cell → List (fl.Num × Cell) → List (fl.Num × Cell)
  insert_by_score p [] = p ∷ []
  insert_by_score p (q ∷ qs) = if fl.ltb q.0 p.0 then q ∷ insert_by_score p qs else p ∷ q ∷ qs

  unfoldable pub sort_by_score : List (fl.Num × Cell) → List (fl.Num × Cell)
  sort_by_score [] = []
  sort_by_score (p ∷ ps) = insert_by_score p (sort_by_score ps)

  abbrev pub cell_of : fl.Num × Cell → Cell
  cell_of p = p.1

  unfoldable pub coarse_cells_ranked : ScoreContext fl → Surface → List Cell
  coarse_cells_ranked ctx surface =
      map cell_of (sort_by_score (scored (λ e. not e.fine) ctx surface))

  -- A converted anchor: a scored fine cell whose coarse_anchor is itself.
  abbrev pub is_self_anchor : Cell → Bool
  is_self_anchor e = e.fine && elim e.coarse_anchor [ none ↦ false | some k ↦ key_eq k e.key ]

  -- The converted anchors in the order of the surface, the first of each key.
  abbrev origin_here : ScoreContext fl → List Key → Cell → Bool
  origin_here ctx seen e =
      is_self_anchor e
      && not (has_key e.key seen)
      && elim (score ctx e) [ none ↦ false | some s ↦ true ]

  unfoldable pub in_flight_origins : ScoreContext fl → List Key → Surface → List Cell
  in_flight_origins ctx seen [] = []
  in_flight_origins ctx seen (e ∷ es) = elim (origin_here ctx seen e) [
    | true ↦ e ∷ in_flight_origins ctx (e.key ∷ seen) es
    | false ↦ in_flight_origins ctx seen es
  ]

  -- The cells whose key is not among the given ones.
  unfoldable pub without_keys : List Key → List Cell → List Cell
  without_keys keys [] = []
  without_keys keys (e ∷ es) =
      let rest = without_keys keys es in if has_key e.key keys then rest else e ∷ rest

  abbrev pub keys_of : List Cell → List Key
  keys_of = map (λ (e : Cell). e.key)

  unfoldable pub top_coarse_ray_origins : ScoreContext fl → ℕ → Surface → List Cell
  top_coarse_ray_origins ctx top_k_rays surface =
      let in_flight = in_flight_origins ctx [] surface in
      let new_origins = without_keys (keys_of in_flight) (coarse_cells_ranked ctx surface) in
      take top_k_rays in_flight ++ take (top_k_rays - length in_flight) new_origins

  -- The anchors of the fine cells, each once, in the order of the surface.
  abbrev pub anchor_of : Cell → Option Key
  anchor_of e = if e.fine then e.coarse_anchor else none

  unfoldable pub in_flight_anchors : List Key → Surface → List Key
  in_flight_anchors seen [] = []
  in_flight_anchors seen (e ∷ es) = elim (anchor_of e) [
    | none ↦ in_flight_anchors seen es
    | some k ↦ elim (has_key k seen) [
      | true ↦ in_flight_anchors seen es
      | false ↦ k ∷ in_flight_anchors (k ∷ seen) es
    ]
  ]

  unfoldable pub top_fine_anchors : ScoreContext fl → ℕ → Surface → List Key
  top_fine_anchors ctx fine_top_k surface =
      let in_flight = in_flight_anchors [] surface in
      let new_candidates = keys_of (without_keys in_flight (coarse_cells_ranked ctx surface)) in
      take fine_top_k in_flight ++ take (fine_top_k - length in_flight) new_candidates
