-- ===== src/Target/Registers/Tables.antt =====
-- The register tables of src/target/msim_target.rs: numbers and names name one another.
use msim_dap.Common.{
  ℕ, zero, suc, ◌+◌, ◌≡◌, refl, ap, ◌∙◌, subst, ◌↔◌, Bool, true, false, not, ◌&&◌, Option, some,
  List, [], ◌∷◌, arith, String, ◌==◌, nat_eq, string_eq, HasEq, same, eq_self, Bool-cases, inl, inr,
  length, get_elem?, map,
}
use msim_dap.Common.Map.{contains}
use msim_dap.Common.Results.{ok, ok_or, ok-injective, ok_or-eq-ok}
use msim_dap.Msim.Frame.{CpuArch, mips, riscv32, riscv64, unknown}
use msim_dap.Target.Registers.Names.{
  RegisterMapper, mips_map, riscv_map, info, reg_map, reg_name, csr_name, position, name_to_reg_id,
  find_csr_name, find_csr_addr, name_to_csr_addr,
}

-- No element stands twice.
module _ {ℓ} {A : Type ℓ} ⦃e : HasEq A⦄ where
  unfoldable pub distinct : List A → Bool
  distinct [] = true
  distinct (x ∷ xs) = not (contains x xs) && distinct xs

-- A name stands at the position where the search finds it.
get_elem?-position :
    (names : List String) (name : String) (i j : ℕ)
    → position i name names ≡ some j
    → (k : ℕ) × (j ≡ i + k) × (get_elem? names k ≡ some name)
unfolding position
get_elem?-position [] name i j h = cc
get_elem?-position (x ∷ names) name i j h = elim (Bool-cases (x == name)) [
  | inl here ↦ (0, ground arith, ap (λ n. some n) (same x name here))
  | inr later ↦
      let next : position (i + 1) name names ≡ some j = ground arith in
      let (k, at, found) = get_elem?-position names name (i + 1) j next in
      (suc k, omega arith, found)
]

get_elem?-contains :
    (names : List String) (name : String) (k : ℕ)
    → get_elem? names k ≡ some name
    → contains name names ≡ true
unfolding contains
get_elem?-contains [] name k h = cc
get_elem?-contains (x ∷ names) name zero h = let e : x ≡ name = ground arith in rw (e, eq_self name)
get_elem?-contains (x ∷ names) name (suc k) h = ground (arith, get_elem?-contains names name k h)

-- The head of a list with no repetition is none of the names that follow.
apart {ℓ} :
    {A : Type ℓ} ⦃e : HasEq A⦄ (x name : A) (names : List A)
    → distinct (x ∷ names) ≡ true
    → contains name names ≡ true
    → (x == name) ≡ false
unfolding distinct
apart x name names d c = elim (Bool-cases (x == name)) [
  | inl e ↦ let q = same x name e in ground (arith, ap (λ y. contains y names) q)
  | inr e ↦ e
]

distinct-tail {ℓ} :
    {A : Type ℓ} ⦃e : HasEq A⦄ (x : A) (xs : List A) → distinct (x ∷ xs) ≡ true → distinct xs ≡ true
unfolding distinct
distinct-tail x xs d = ground arith

position-get_elem? :
    (names : List String) (name : String) (i k : ℕ)
    → distinct names ≡ true
    → get_elem? names k ≡ some name
    → position i name names ≡ some (i + k)
unfolding position
position-get_elem? [] name i k d h = cc
position-get_elem? (x ∷ names) name i zero d h =
    let e : x ≡ name = ground arith in
    rw (e, eq_self name, position) (ap (λ n. some n) (omega arith))
position-get_elem? (x ∷ names) name i (suc k) d h =
    rw (apart x name names d (get_elem?-contains names name k h), position)
      (position-get_elem? names name (i + 1) k (distinct-tail x names d) h
        ∙ ap (λ n. some n) (omega arith))

find_csr_name-contains :
    (a : ℕ) (name : String) (csrs : List (ℕ × String))
    → find_csr_name a csrs ≡ some name
    → contains name (map (λ c. c.1) csrs) ≡ true
unfolding find_csr_name contains
find_csr_name-contains a name [] h = cc
find_csr_name-contains a name ((b, m) ∷ csrs) h = elim (Bool-cases (b == a)) [
  | inl e ↦ let q : m ≡ name = ground arith in rw (q, eq_self name)
  | inr e ↦
      let next : find_csr_name a csrs ≡ some name = ground arith in
      ground (arith, find_csr_name-contains a name csrs next)
]

find_csr_addr-contains :
    (a : ℕ) (name : String) (csrs : List (ℕ × String))
    → find_csr_addr name csrs ≡ some a
    → contains a (map (λ c. c.0) csrs) ≡ true
unfolding find_csr_addr contains
find_csr_addr-contains a name [] h = cc
find_csr_addr-contains a name ((b, m) ∷ csrs) h = elim (Bool-cases (m == name)) [
  | inl e ↦ let q : b ≡ a = ground arith in rw (q, eq_self a)
  | inr e ↦
      let next : find_csr_addr name csrs ≡ some a = ground arith in
      ground (arith, find_csr_addr-contains a name csrs next)
]

find_csr_addr-name :
    (a : ℕ) (name : String) (csrs : List (ℕ × String))
    → distinct (map (λ c. c.1) csrs) ≡ true
    → find_csr_name a csrs ≡ some name
    → find_csr_addr name csrs ≡ some a
unfolding find_csr_addr find_csr_name
find_csr_addr-name a name [] d h = cc
find_csr_addr-name a name ((b, m) ∷ csrs) d h = elim (Bool-cases (b == a)) [
  | inl e ↦
      let q : m ≡ name = ground arith in
      rw (q, eq_self name, find_csr_addr) (ap (λ n. some n) (same b a e))
  | inr e ↦
      let next : find_csr_name a csrs ≡ some name = ground arith in
      rw
        (
          apart m name (map (λ c. c.1) csrs) d (find_csr_name-contains a name csrs next),
          find_csr_addr,
        )
        (find_csr_addr-name a name csrs (distinct-tail m (map (λ c. c.1) csrs) d) next)
]

find_csr_name-addr :
    (a : ℕ) (name : String) (csrs : List (ℕ × String))
    → distinct (map (λ c. c.0) csrs) ≡ true
    → find_csr_addr name csrs ≡ some a
    → find_csr_name a csrs ≡ some name
unfolding find_csr_addr find_csr_name
find_csr_name-addr a name [] d h = cc
find_csr_name-addr a name ((b, m) ∷ csrs) d h = elim (Bool-cases (m == name)) [
  | inl e ↦
      let q : b ≡ a = ground arith in
      rw (q, eq_self a, find_csr_name) (ap (λ n. some n) (same m name e))
  | inr e ↦
      let next : find_csr_addr name csrs ≡ some a = ground arith in
      rw
        (apart b a (map (λ c. c.0) csrs) d (find_csr_addr-contains a name csrs next), find_csr_name)
        (find_csr_name-addr a name csrs (distinct-tail b (map (λ c. c.0) csrs) d) next)
]

-- The tables repeat no number and no name, and have as many registers as `info` says.
abbrev IsTable : CpuArch → RegisterMapper → Type 0
IsTable arch mapper =
    (distinct mapper.gen_reg_names ≡ true)
    × (distinct (map (λ c. c.0) mapper.csr_map) ≡ true)
    × (distinct (map (λ c. c.1) mapper.csr_map) ≡ true)
    × (info arch ≡ ok (length mapper.gen_reg_names))

pub reg_map-IsTable :
    (arch : CpuArch) (mapper : RegisterMapper) → reg_map arch ≡ ok mapper → IsTable arch mapper
unfolding reg_map info distinct contains
reg_map-IsTable mips mapper h =
    subst (IsTable mips) (ok-injective mips_map mapper h) (refl, refl, refl, refl)
reg_map-IsTable riscv32 mapper h =
    subst (IsTable riscv32) (ok-injective riscv_map mapper h) (refl, refl, refl, refl)
reg_map-IsTable riscv64 mapper h =
    subst (IsTable riscv64) (ok-injective riscv_map mapper h) (refl, refl, refl, refl)
reg_map-IsTable unknown mapper h = cc

ok_or-some : {E A : Type 0} (e : E) (o : Option A) (a : A) → o ≡ some a → ok_or e o ≡ ok a
ok_or-some e o a h = rw h

-- In the tables of an architecture, numbers and names of general registers name one another, and so
-- do addresses and names of control registers.
pub register_names :
    (arch : CpuArch) (mapper : RegisterMapper) (id : ℕ) (name : String)
    → reg_map arch ≡ ok mapper
    → ((reg_name mapper id ≡ ok name) ↔ (name_to_reg_id mapper name ≡ ok id))
      × ((csr_name mapper id ≡ ok name) ↔ (name_to_csr_addr mapper name ≡ ok id))
unfolding reg_name csr_name name_to_reg_id name_to_csr_addr
register_names arch mapper id name h =
    let (gen, addrs, names, _) = reg_map-IsTable arch mapper h in
    (
      (
        λ e. ok_or-some _ _ id (
            position-get_elem? mapper.gen_reg_names name 0 id gen (ok_or-eq-ok _ _ name e)
            ∙ ap (λ n. some n) (omega arith)),
        λ e.
            let (k, at, found) =
              get_elem?-position mapper.gen_reg_names name 0 id (ok_or-eq-ok _ _ id e) in
            let same_id : k ≡ id = omega arith in ok_or-some _ _ name (rw same_id at found),
      ),
      (
        λ e.
            ok_or-some _ _ id
              (find_csr_addr-name id name mapper.csr_map names (ok_or-eq-ok _ _ name e)),
        λ e.
            ok_or-some _ _ name
              (find_csr_name-addr id name mapper.csr_map addrs (ok_or-eq-ok _ _ id e)),
      ),
    )
