-- ===== src/Target/Control/Caching.antt =====
-- `get_config` of src/target/msim_target.rs: what it caches.
use msim_dap.Common.{
  ℕ, zero, suc, ◌+◌, ◌≤◌, ◌<◌, ◌≡◌, sym, ap, ◌∙◌, Bool, true, false, ◌&&◌, ◌||◌, none, some, List,
  [], arith, ◌==◌, nat_eq, leb, ltb, Option-cases, inl, inr,
}
use msim_dap.Common.Map.{lookup, insert, lookup-insert}
use msim_dap.Common.Results.{ok, err}
use msim_dap.Common.Exec.{bind-eq-ok}
use msim_dap.Msim.Frame.{CpuArch, get_config as config_request, get_cpu_info}
use msim_dap.Msim.Frame.Codec.{read_arch}
use msim_dap.Target.{unknown_cpu, Env, Config, MsimTarget, send}
use msim_dap.Target.Control.{read_archs, fetch_config, get_config, cpu_arch}

abbrev has : ℕ → List (ℕ × CpuArch) → Bool
has id m = elim (lookup id m) [ none ↦ false | some _ ↦ true ]

has-insert :
    (k j : ℕ) (a : CpuArch) (m : List (ℕ × CpuArch)) → has j (insert k a m) ≡ ((k == j) || has j m)
has-insert k j a m = ground (arith, lookup-insert k j a m)

module _ (env : Env) where
  read_archs-has :
      (n i : ℕ) (m m' : List (ℕ × CpuArch)) (t t' : MsimTarget)
      → read_archs env n i m t ≡ (ok m', t')
      → (id : ℕ) → has id m' ≡ ((leb i id && ltb id (i + n)) || has id m)
  unfolding read_archs
  read_archs-has zero i m m' t t' e id =
      let same_map : m ≡ m' = ground arith in rw (← same_map) (ground arith)
  read_archs-has (suc n) i m m' t t' e id =
      let (r, t1, p, q) = bind-eq-ok (send env (get_cpu_info i) t) _ e in
      read_archs-has n (i + 1) (insert i (read_arch r.arg0) m) m' t1 t' q id
      ∙ ground (arith, has-insert i id (read_arch r.arg0) m)

  below : (id n : ℕ) → ((leb 0 id && ltb id (0 + n)) || has id []) ≡ ltb id n
  unfolding lookup
  below id n = ground arith

  fetch_config_lem :
      (t t' : MsimTarget) (c : Config)
      → fetch_config env t ≡ (ok c, t')
      → (t'.config ≡ some c) × ((id : ℕ) → has id c.cpu_to_arch ≡ ltb id c.cpu_count)
  unfolding fetch_config
  fetch_config_lem t t' c e =
      let (r, t1, p, q) = bind-eq-ok (send env config_request t) _ e in
      let (m, t2, p', q') = bind-eq-ok (read_archs env r.arg0 0 [] t1) _ q in
      let table : m ≡ c.cpu_to_arch = ground arith in
      let count : r.arg0 ≡ c.cpu_count = ground arith in
      (
        ground arith,
        λ id.
            ap (has id) (sym table)
            ∙ read_archs-has r.arg0 0 [] m t1 t2 p' id
            ∙ ap (λ n. (leb 0 id && ltb id (0 + n)) || has id []) count
            ∙ below id c.cpu_count,
      )

-- The first `get_config` that succeeds caches what it returns: asking again sends nothing and returns
-- the same. In it every CPU number below the CPU count has an architecture, and any other number is
-- answered by `UnknownCpu` with that number.
pub get_config_caches :
    (env : Env) (t t' : MsimTarget) (c : Config) (inside outside : ℕ)
    → t.config ≡ none
    → get_config env t ≡ (ok c, t')
    → inside < c.cpu_count
    → c.cpu_count ≤ outside
    → (get_config env t' ≡ (ok c, t'))
      × ((a : CpuArch) × (cpu_arch c inside ≡ ok a))
      × (cpu_arch c outside ≡ err (unknown_cpu outside))
unfolding get_config cpu_arch
get_config_caches env t t' c inside outside new e low high =
    let (stored, known) = fetch_config_lem env t t' c (rw (← fetched) e) in
    (
      rw stored,
      elim (Option-cases (lookup inside c.cpu_to_arch)) [
        | inl missing ↦ absurd (ground (arith, known inside))
        | inr (a, found) ↦ (a, rw found)
      ],
      ground (arith, known outside),
    )
  where
    fetched : get_config env t ≡ fetch_config env t
    fetched = rw new
