-- ===== src/Devices/Nibe1155/Polling/Runs.antt =====
-- The runs of ids that pollLogSetValues of nibe1155.ts reads.
use rpi_atmega324_modbus_gat.Prelude.{
  ℕ, zero, suc, ◌+◌, ◌-◌, ◌≤◌, ◌≡◌, refl, sym, ap, ◌∙◌, subst, ◌≢◌, inl, inr, List, [], ◌∷◌, ◌++◌,
  arith, ◌==◌, Bool-cases, ==→eq, ==→ne,
}
use rpi_atmega324_modbus_gat.Devices.Nibe1155.Polling.{poll_runs, extend_run}

-- The ids `first`, ..., `first + quantity - 1`.
abbrev pub ids_from : ℕ → ℕ → List ℕ
ids_from first zero = []
ids_from first (suc quantity) = first ∷ ids_from (suc first) quantity

abbrev pub ids_of_runs : List (ℕ × ℕ) → List ℕ
ids_of_runs [] = []
ids_of_runs ((first, quantity) ∷ runs) = ids_from first quantity ++ ids_of_runs runs

-- No run goes on in the next one.
abbrev pub AreMaximal : List (ℕ × ℕ) → Type 0
AreMaximal [] = Unit {0}
AreMaximal (r ∷ []) = 1 ≤ r.1
AreMaximal (r ∷ q ∷ runs) = (1 ≤ r.1) × (q.0 ≢ r.0 + r.1) × AreMaximal (q ∷ runs)

ids_from-suc :
    (first k i : ℕ) (is : List ℕ)
    → i ≡ first + k
    → ids_from first (suc k) ++ is ≡ ids_from first k ++ (i ∷ is)
ids_from-suc first zero i is e = ap (λ x. x ∷ is) (omega arith)
ids_from-suc first (suc k) i is e =
    ap (λ xs. first ∷ xs) (ids_from-suc (suc first) k i is (omega arith))

quantity : (first k last : ℕ) → last ≡ first + k → last - first + 1 ≡ suc k
quantity first k last e = omega arith

ids_of_runs-extend_run :
    (first k last : ℕ) (is : List ℕ)
    → last ≡ first + k
    → ids_of_runs (extend_run first last is) ≡ ids_from first (suc k) ++ is
ids_of_runs-extend_run first k last [] e =
    ap (λ q. ids_from first q ++ []) (quantity first k last e)
ids_of_runs-extend_run first k last (i ∷ is) e = elim (Bool-cases (i == last + 1)) [
  | inl h ↦
      let l : i ≡ last + 1 = ==→eq i (last + 1) h in
      let j : i ≡ first + suc k = omega arith in
      rw h (ids_of_runs-extend_run first (suc k) i is j ∙ ids_from-suc first (suc k) i is j)
  | inr h ↦ rw h (
      ap (λ q. ids_from first q ++ ids_of_runs (extend_run i i is)) (quantity first k last e)
      ∙ ap (λ xs. ids_from first (suc k) ++ xs) (ids_of_runs-extend_run i 0 i is (omega arith)))
]

ids_of_runs-poll_runs : (ids : List ℕ) → ids_of_runs (poll_runs ids) ≡ ids
unfolding poll_runs
ids_of_runs-poll_runs [] = refl
ids_of_runs-poll_runs (i ∷ is) = ids_of_runs-extend_run i 0 i is (omega arith)

abbrev StartsAt : ℕ → List (ℕ × ℕ) → Type 0
StartsAt i runs = (q : ℕ) × (rest : List (ℕ × ℕ)) × (runs ≡ (i, q) ∷ rest)

extend_run-StartsAt : (first last : ℕ) (is : List ℕ) → StartsAt first (extend_run first last is)
extend_run-StartsAt first last [] = (_, _, refl)
extend_run-StartsAt first last (i ∷ is) = elim (Bool-cases (i == last + 1)) [
  | inl e ↦ rw e (extend_run-StartsAt first i is)
  | inr e ↦ rw e (_, _, refl)
]

AreMaximal-cons :
    (first k i : ℕ) (runs : List (ℕ × ℕ))
    → 1 ≤ k
    → i ≢ first + k
    → StartsAt i runs
    → AreMaximal runs
    → AreMaximal ((first, k) ∷ runs)
AreMaximal-cons first k i runs h n (q, rest, e) =
    subst (λ rs. AreMaximal rs → AreMaximal ((first, k) ∷ rs)) (sym e) (λ m. (h, n, m))

next_ne : (first last i : ℕ) → first ≤ last → i ≢ last + 1 → i ≢ first + (last - first + 1)
next_ne first last i h n = omega arith

AreMaximal-extend_run :
    (first last : ℕ) (is : List ℕ) → first ≤ last → AreMaximal (extend_run first last is)
AreMaximal-extend_run first last [] h = omega arith
AreMaximal-extend_run first last (i ∷ is) h = elim (Bool-cases (i == last + 1)) [
  | inl e ↦
      let l : i ≡ last + 1 = ==→eq i (last + 1) e in
      rw e (AreMaximal-extend_run first i is (omega arith))
  | inr e ↦ rw e (
      AreMaximal-cons first (last - first + 1) i (extend_run i i is) (omega arith)
        (next_ne first last i h (==→ne i (last + 1) e)) (extend_run-StartsAt i i is)
        (AreMaximal-extend_run i i is (omega arith)))
]

poll_runs-AreMaximal : (ids : List ℕ) → AreMaximal (poll_runs ids)
unfolding poll_runs
poll_runs-AreMaximal [] = tt
poll_runs-AreMaximal (i ∷ is) = AreMaximal-extend_run i i is (omega arith)

-- The runs that are read one by one hold exactly the given ids, in their order, and are as long as can be:
-- each reads at least one register, and none ends where the next begins.
pub poll_runs-exact :
    (ids : List ℕ) → (ids_of_runs (poll_runs ids) ≡ ids) × AreMaximal (poll_runs ids)
poll_runs-exact ids = (ids_of_runs-poll_runs ids, poll_runs-AreMaximal ids)
