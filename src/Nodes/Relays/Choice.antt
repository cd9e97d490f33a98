-- ===== src/Nodes/Relays/Choice.antt =====
-- Which relays GetActiveRelays chooses, in which order, and how many.
use enxame.Base.{
  ℕ, zero, suc, ◌≤◌, String, ◌≡◌, refl, sym, ◌∙◌, subst, ap, Bool, true, not, ◌&&◌, List, [], ◌∷◌,
  ◌++◌, some, arith, Bool-cases, ◌⊎◌, inl, inr, length, filter_by,
}
use enxame.Base.Exec.{ok}
use enxame.Nodes.Types.{Node, is_relay}
use enxame.Nodes.Redis.{Redis}
use enxame.Nodes.Manager.{NodeJson}
use enxame.Nodes.Relays.{
  take, is_excluded, id_of_key, is_preferred, relays_of, ordered, limited, get_active_relays,
}
use mathlib.Core.Bool.{Bool-set}
use mathlib.Core.List.{Perm, foldr, perm_middle, append-nil}
use mathlib.Core.List.Perm

abbrev pub every : (Node → Bool) → List Node → Bool
every p ns = foldr (λ n b. p n && b) true ns

every-perm : (p : Node → Bool) (xs ys : List Node) → Perm xs ys → every p xs ≡ every p ys
every-perm p xs ys h = Perm.foldr-eq Bool-set (λ n b. p n && b) (λ x y b. ground arith) h true

every-filter_by : (p : Node → Bool) (ns : List Node) → every p (filter_by p ns) ≡ true
every-filter_by p [] = refl
every-filter_by p (n ∷ ns) = ground (arith, every-filter_by p ns)

abbrev drop : ℕ → List Node → List Node
drop zero ns = ns
drop (suc k) [] = []
drop (suc k) (n ∷ ns) = drop k ns

take-append-drop : (k : ℕ) (ns : List Node) → take k ns ++ drop k ns ≡ ns
take-append-drop zero ns = refl
take-append-drop (suc k) [] = refl
take-append-drop (suc k) (n ∷ ns) = ap (n ∷◌) (take-append-drop k ns)

length-take-le : (k : ℕ) (ns : List Node) → length (take k ns) ≤ k
length-take-le zero ns = omega arith
length-take-le (suc k) [] = omega arith
length-take-le (suc k) (n ∷ ns) = omega (arith, length-take-le k ns)

drop-nil_or_full : (k : ℕ) (ns : List Node) → (drop k ns ≡ []) ⊎ (length (take k ns) ≡ k)
drop-nil_or_full zero ns = inr refl
drop-nil_or_full (suc k) [] = inl refl
drop-nil_or_full (suc k) (n ∷ ns) = elim (drop-nil_or_full k ns) [
  | inl e ↦ inl e
  | inr e ↦ inr (ap suc e)
]

every-drop :
    (p : Node → Bool) (k : ℕ) (ns : List Node) → every p ns ≡ true → every p (drop k ns) ≡ true
every-drop p zero ns h = h
every-drop p (suc k) [] h = refl
every-drop p (suc k) (n ∷ ns) h = every-drop p k ns (ground (arith, h))

-- Of the elements that have the property, followed by those that do not, a first part has only the
-- ones, or the rest has only the others.
take-drop_split :
    (p : Node → Bool) (k : ℕ) (xs ys : List Node)
    → every p xs ≡ true
    → every (λ n. not (p n)) ys ≡ true
    → (every p (take k (xs ++ ys)) ≡ true) ⊎ (every (λ n. not (p n)) (drop k (xs ++ ys)) ≡ true)
take-drop_split p zero xs ys h l = inl refl
take-drop_split p (suc k) [] [] h l = inl refl
take-drop_split p (suc k) [] (y ∷ ys) h l =
    ground (arith, every-drop (λ n. not (p n)) (suc k) (y ∷ ys) l)
take-drop_split p (suc k) (x ∷ xs) ys h l = ground (arith, h, take-drop_split p k xs ys, l)

filter_by-perm :
    (p : Node → Bool) (ns : List Node) → Perm (filter_by p ns ++ filter_by (λ n. not (p n)) ns) ns
filter_by-perm p [] = Perm.rfl
filter_by-perm p (n ∷ ns) = elim (Bool-cases (p n)) [
  | inl yes' ↦ rw (yes', filter_by, ◌++◌) (Perm.cons n (filter_by-perm p ns))
  | inr no' ↦
      rw (no', filter_by, ◌++◌) (Perm.trans (perm_middle _ _) (Perm.cons n (filter_by-perm p ns)))
]

every-append : (p : Node → Bool) (xs ys : List Node) → every p (xs ++ ys) ≡ true → every p xs ≡ true
every-append p [] ys h = refl
every-append p (x ∷ xs) ys h = ground (arith, h, every-append p xs ys)

abbrev rest_of : ℕ → List Node → List Node
rest_of zero ns = []
rest_of (suc k) ns = drop (suc k) ns

limited_lem :
    (limit : ℕ) (ns : List Node)
    → (limited limit ns ++ rest_of limit ns ≡ ns)
      × ((limit ≡ 0) ⊎ (length (limited limit ns) ≤ limit))
      × ((rest_of limit ns ≡ []) ⊎ (length (limited limit ns) ≡ limit))
limited_lem zero ns = (append-nil ns, inl refl, inl refl)
limited_lem (suc k) ns =
    (take-append-drop (suc k) ns, inr (length-take-le (suc k) ns), drop-nil_or_full (suc k) ns)

abbrev allowed : List String → List String → List String
allowed excluded ks = filter_by (λ k. not (is_excluded excluded (id_of_key k))) ks

module _ {Store : Type 0} (redis : Redis Store) (json : NodeJson) where
  relays_of-IsRelay :
      (now : ℕ) (excluded : List String) (s : Store) (ks : List String)
      → every is_relay (relays_of redis json now excluded s ks) ≡ true
  unfolding relays_of
  relays_of-IsRelay now excluded s [] = refl
  relays_of-IsRelay now excluded s (k ∷ ks) = ground (arith, relays_of-IsRelay now excluded s ks)

  relays_of-allowed :
      (now : ℕ) (excluded : List String) (s : Store) (ks : List String)
      → relays_of redis json now excluded s ks ≡ relays_of redis json now [] s (allowed excluded ks)
  unfolding relays_of
  relays_of-allowed now excluded s [] = refl
  relays_of-allowed now excluded s (k ∷ ks) = ground (arith, relays_of-allowed now excluded s ks)

  module _ (shuffle : List Node → List Node)
      (permutes : (ns : List Node) → Perm (shuffle ns) ns) where
    ordered-perm : (region : String) (ns : List Node) → Perm (ordered shuffle region ns) ns
    unfolding ordered
    ordered-perm region ns =
        Perm.trans (Perm.append (permutes _) (permutes _)) (filter_by-perm (is_preferred region) ns)

    every-shuffle : (p : Node → Bool) (ns : List Node) → every p (shuffle (filter_by p ns)) ≡ true
    every-shuffle p ns = every-perm p _ _ (permutes _) ∙ every-filter_by p ns

    limited-ordered :
        (region : String) (limit : ℕ) (ns : List Node)
        → (every (is_preferred region) (limited limit (ordered shuffle region ns)) ≡ true)
          ⊎ (every (λ n. not (is_preferred region n)) (rest_of limit (ordered shuffle region ns))
              ≡ true)
    unfolding ordered
    limited-ordered region zero ns = inr refl
    limited-ordered region (suc k) ns =
        take-drop_split (is_preferred region) (suc k) _ _ (every-shuffle (is_preferred region) ns)
          (every-shuffle (λ n. not (is_preferred region n)) ns)

    -- Of the relays online under the keys that are not excluded, some are returned and the rest is not,
    -- each once. No more are returned than a positive limit, and fewer only if there is no rest. Either
    -- all that are returned are of the preferred region, or none of the rest is. Shuffling is assumed
    -- to permute.
    pub get_active_relays_lem :
        (now : ℕ) (region : String) (limit : ℕ) (excluded : List String) (s : Store)
        (ks : List String)
        → redis.keys now "node:*" s ≡ some ks
        → (ns : List Node) × (rest : List Node) × (get_active_relays redis json shuffle now region
              limit excluded s
            ≡ ok ns)
          × Perm (ns ++ rest) (relays_of redis json now [] s (allowed excluded ks))
          × (every is_relay ns ≡ true)
          × ((limit ≡ 0) ⊎ (length ns ≤ limit))
          × ((rest ≡ []) ⊎ (length ns ≡ limit))
          × ((every (is_preferred region) ns ≡ true)
              ⊎ (every (λ n. not (is_preferred region n)) rest ≡ true))
    unfolding get_active_relays
    get_active_relays_lem now region limit excluded s ks listed =
        let relays = relays_of redis json now excluded s ks in
        let sorted = ordered shuffle region relays in
        let parts = limited_lem limit sorted in
        let whole : Perm (limited limit sorted ++ rest_of limit sorted) relays =
          subst (λ ns. Perm ns relays) (sym parts.0) (ordered-perm region relays) in
        (
          limited limit sorted,
          rest_of limit sorted,
          rw (listed, get_active_relays) refl,
          subst (Perm _) (relays_of-allowed now excluded s ks) whole,
          every-append is_relay (limited limit sorted) (rest_of limit sorted)
              (every-perm is_relay _ _ whole ∙ relays_of-IsRelay now excluded s ks),
          parts.1,
          parts.2,
          limited-ordered region limit relays,
        )
