-- ===== src/Target/Breakpoints/Replacing.antt =====
-- What `replace_code_bps` comes to, for its file, the other files and every address.
use msim_dap.Common.{
  ℕ, ◌≡◌, ◌≢◌, refl, sym, ap, ◌∙◌, arith, true, not, ◌&&◌, ◌||◌, none, some, List, [], ◌∷◌, map,
  All, nat_eq, int_eq, string_eq, list_eq, Option-cases, eq_self, differ, inl, inr,
}
use msim_dap.Common.Int.{ℤ}
use msim_dap.Common.Map.{lookup, insert, contains, collect, lookup-insert, lookup-remove}
use msim_dap.Common.Results.{Result}
use msim_dap.Target.{FilePath, TargetError, Env, MsimTarget}
use msim_dap.Target.Breakpoints.{
  or_default, drop_file, store_file, remove_missing, replace_line, replace_lines, replace_code_bps,
}
use msim_dap.Target.Breakpoints.Acknowledged.{
  Acknowledges, is_armed, bps_of, set_code_bp-missing, stands_at, stands_at-found, is_gone,
  remove_missing-IsRemoved,
}
use msim_dap.Target.Breakpoints.Rounds.{
  outcome, found, is_wanted, is_new, IsIndexed, replace_lines-IsLooped,
}
use msim_dap.Target.Breakpoints.Sets.{lines_in, addresses_in, is_wanted-intro}
use msim_dap.Target.Breakpoints.Standing.{IsConsistent, old-indexed, both_loops}

lookup-new :
    (source : FilePath) (bps : List (ℤ × ℕ)) (files : List (FilePath × List (ℤ × ℕ)))
    → lookup source (insert source bps files) ≡ some bps
lookup-new source bps files = lookup-insert source source bps files ∙ rw (eq_self source) refl

store_file-stores :
    (source : FilePath) (bps : List (ℤ × ℕ)) (t : MsimTarget)
    → (bps ≡ [] → bps_of source t ≡ none)
    → (or_default (bps_of source (store_file source bps t)) ≡ bps)
      × ((other : FilePath)
          → source ≢ other
          → bps_of other (store_file source bps t) ≡ bps_of other t)
      × ((b : ℕ) → is_armed b (store_file source bps t) ≡ is_armed b t)
unfolding store_file
store_file-stores source [] t h = (ap or_default (h refl), λ other d. refl, λ b. refl)
store_file-stores source (bp ∷ bps) t h = (
  ap or_default (lookup-new source (bp ∷ bps) t.bp_store.bps_per_file),
  λ other d.
      lookup-insert source other (bp ∷ bps) t.bp_store.bps_per_file
      ∙ rw (differ source other d) refl,
  λ b. refl,
)

drop_file-drops :
    (source : FilePath) (t : MsimTarget)
    → (bps_of source (drop_file source t) ≡ none)
      × ((other : FilePath) → source ≢ other → bps_of other (drop_file source t) ≡ bps_of other t)
      × ((b : ℕ) → is_armed b (drop_file source t) ≡ is_armed b t)
unfolding drop_file
drop_file-drops source t = (
  lookup-remove source source t.bp_store.bps_per_file ∙ rw (eq_self source) refl,
  λ other d. lookup-remove source other t.bp_store.bps_per_file ∙ rw (differ source other d) refl,
  λ b. refl,
)

module _ (env : Env) (source : FilePath) where
  -- What replacing the breakpoints of a file comes to: the results, what is stored for the file and for
  -- others, and the addresses.
  pub record IsReplaced (lines : List ℤ) (t : MsimTarget)
      (results : List (Result TargetError (Unit {0}))) (t' : MsimTarget) : Type 0 where
    pub answered : results ≡ map (outcome env source) lines
    pub stored : or_default (bps_of source t') ≡ found env source lines
    pub others : (other : FilePath) → source ≢ other → bps_of other t' ≡ bps_of other t
    pub armed :
        (b : ℕ)
        → is_armed b t' ≡ (
            is_wanted env source lines b
            || (is_armed b t && not (contains b (addresses_in (or_default (bps_of source t))))))

  -- What holds of each line that the index has.
  found-All :
      (P : ℤ × ℕ → Type 0) (lines : List ℤ)
      → ((line : ℤ) (a : ℕ)
          → contains line lines ≡ true
          → env.index.get_address source line ≡ some a
          → P (line, a))
      → All P (found env source lines)
  unfolding contains
  found-All P [] h = tt
  found-All P (line ∷ lines) h =
      let rest : All P (found env source lines) =
        found-All P lines (λ l a among at. h l a (ground (arith, among)) at) in
      elim (Option-cases (env.index.get_address source line)) [
        | inl missing ↦ rw (found, missing) rest
        | inr (a, at) ↦ rw (found, at) (h line a (ground (arith, eq_self line)) at, rest)
      ]

module _ (env : Env) (source : FilePath) (acks : Acknowledges env) where
  -- With no line that the index has, the second loop stores nothing.
  replace_lines-none :
      (old : List (ℤ × ℕ)) (lines : List ℤ) (t : MsimTarget)
      → ((line : ℤ) (a : ℕ) → lookup line old ≡ some a → env.index.get_address source line ≡ some a)
      → found env source lines ≡ []
      → (replace_lines env source old lines t).2 ≡ t
  unfolding replace_lines replace_line
  replace_lines-none old [] t indexed h = refl
  replace_lines-none old (line ∷ lines) t indexed h =
      elim (Option-cases (env.index.get_address source line)) [
        | inr (a, at) ↦ absurd (ground (arith, h, at))
        | inl missing ↦ elim (Option-cases (lookup line old)) [
          | inr (a, known) ↦ absurd (ground (arith, missing, indexed line a known))
          | inl new ↦
              rw
                (
                  replace_lines,
                  replace_line,
                  new,
                  set_code_bp-missing env acks source line t missing,
                )
                (replace_lines-none old lines t indexed (ground (arith, missing, h)))
        ]
      ]

  module _
      (ordered : (m : List (ℤ × ℕ)) (line : ℤ)
        → contains line (lines_in (env.order m)) ≡ contains line (lines_in m))
      (distinct : (line line' : ℤ) (a : ℕ)
        → env.index.get_address source line ≡ some a
        → env.index.get_address source line' ≡ some a
        → line ≡ line') where
    -- Where MSIM acknowledges every request, no two lines of the file share an address, the order of a
    -- map keeps its lines, and what is stored for the file is where the index has it and armed: replacing
    -- its breakpoints answers each line by whether the index has it, stores those lines that it has, in
    -- their order, and leaves the other files alone; then armed are the addresses of these lines, and what
    -- was armed before but for the addresses that were stored for the file.
    pub replace_code_bps-IsReplaced :
        (lines : List ℤ) (t : MsimTarget)
        → IsConsistent env source t
        → IsReplaced env source lines t
            (replace_code_bps env source lines t).0
            (replace_code_bps env source lines t).1
    unfolding replace_code_bps
    replace_code_bps-IsReplaced lines t h =
        let old = collect (or_default (bps_of source t)) in
        let indexed = old-indexed env source ordered distinct lines t h in
        let dropped = drop_file source t in
        let (cleared, others, kept) = drop_file-drops source t in
        let removed = remove_missing env source lines (env.order old) dropped in
        let (armed, files) =
          remove_missing-IsRemoved env acks source lines (env.order old) dropped cleared in
        let (new, results, armed', others') =
          replace_lines-IsLooped env source acks old indexed lines removed in
        let (_, _, t') = replace_lines env source old lines removed in
        let empty = replace_lines-none old lines removed indexed in
        let (stored, others'', armed'') =
          store_file-stores source (replace_lines env source old lines removed).0 t'
            (λ e. ap (bps_of source) (empty (sym new ∙ e)) ∙ ap (lookup source) files ∙ cleared) in
        record {
          answered = results;
          stored = stored ∙ new;
          others = λ other d.
              others'' other d ∙ others' other d ∙ ap (lookup other) files ∙ others other d;
          armed = λ b.
              armed'' b
              ∙ armed' b
              ∙ ap (λ x. x || is_new env source old lines b)
                  (armed b
                    ∙ ap (λ x. x && not (is_gone env source lines (env.order old) b)) (kept b))
              ∙ both_loops env source ordered distinct lines t h b;
        }

    IsReplaced-IsConsistent :
        (lines : List ℤ) (t t' : MsimTarget) (results : List (Result TargetError (Unit {0})))
        → IsReplaced env source lines t results t'
        → IsConsistent env source t'
    IsReplaced-IsConsistent lines t t' results r = record {
      indexed =
          rw r.stored (found-All env source (IsIndexed env source) lines (λ line a among at. at));
      armed = rw r.stored (
          found-All env source (λ bp. is_armed bp.1 t' ≡ true) lines
            (λ line a among at.
              let here : stands_at env source line a ≡ true =
                stands_at-found env source line a a at ∙ eq_self a in
              ground (arith, r.armed a, is_wanted-intro env source lines a line among here)));
    }

    -- Where MSIM acknowledges every request, no two lines of the file share an address, and the order of
    -- a map keeps its lines: if what is stored for the file is where the index has it and armed, it is so
    -- again after its breakpoints were replaced.
    pub replace_code_bps-IsConsistent :
        (lines : List ℤ) (t : MsimTarget)
        → IsConsistent env source t
        → IsConsistent env source (replace_code_bps env source lines t).1
    replace_code_bps-IsConsistent lines t h =
        IsReplaced-IsConsistent lines t (replace_code_bps env source lines t).1
          (replace_code_bps env source lines t).0 (replace_code_bps-IsReplaced lines t h)
