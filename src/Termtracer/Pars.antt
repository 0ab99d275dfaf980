-- ===== src/Termtracer/Pars.antt =====
-- The parameters of a system call on its line: printParsOnEntry and printParsOnExit of
-- src/termtracer/TermTracer.cxx.
use clues.Common.{
  ℕ, ◌≡◌, refl, ap, ◌∙◌, Bool, true, false, ◌&&◌, not, List, [], ◌∷◌, ◌++◌, if◌then◌else◌,
  Bool-cases, inl, inr,
}

pub record Par : Type 0 where
  pub unused : Bool
  pub is_in : Bool
  pub label : ℕ

-- The text of a parameter, which `printPar` writes, or a comma.
pub data Part : Type 0 where
  par : ℕ → Part
  comma : Part

-- A comma follows each parameter but the last of the array.
abbrev pub with_comma : Par → List Par → List Part → List Part
with_comma p [] rest = par p.label ∷ rest
with_comma p (q ∷ qs) rest = par p.label ∷ comma ∷ rest

unfoldable pub print_pars_on_entry : List Par → List Part
print_pars_on_entry [] = []
print_pars_on_entry (p ∷ ps) =
    let rest = print_pars_on_entry ps in
    if p.unused then rest else if not p.is_in then [] else with_comma p ps rest

-- The loop of `printParsOnExit`, with its flag.
unfoldable pub exit_loop : Bool → List Par → List Part
exit_loop seen_non_input [] = []
exit_loop seen_non_input (p ∷ ps) =
    let same = exit_loop seen_non_input ps in
    let rest = exit_loop true ps in
    if p.unused then same else if not seen_non_input && p.is_in then same else with_comma p ps rest

unfoldable pub print_pars_on_exit : List Par → List Part
unfolding exit_loop
print_pars_on_exit ps = exit_loop false ps

-- All used parameters, in their order.
abbrev pub all_pars : List Par → List Part
all_pars [] = []
all_pars (p ∷ ps) = let rest = all_pars ps in if p.unused then rest else with_comma p ps rest

seen-all : (ps : List Par) → exit_loop true ps ≡ all_pars ps
unfolding exit_loop
seen-all [] = refl
seen-all (p ∷ ps) = rw (seen-all ps) refl

with_comma-append :
    (p : Par) (ps : List Par) (u v : List Part) → with_comma p ps u ++ v ≡ with_comma p ps (u ++ v)
with_comma-append p [] u v = refl
with_comma-append p (q ∷ qs) u v = refl

-- What is printed on entry and what is printed on exit make up one list of all used parameters, each
-- once and in their order, with the commas of an uninterrupted listing.
pub print_pars_lem : (ps : List Par) → print_pars_on_entry ps ++ print_pars_on_exit ps ≡ all_pars ps
unfolding print_pars_on_entry print_pars_on_exit exit_loop
print_pars_lem [] = refl
print_pars_lem (p ∷ ps) = elim (Bool-cases p.unused) [
  | inl u ↦ rw u (print_pars_lem ps)
  | inr u ↦ elim (Bool-cases p.is_in) [
    | inl i ↦
        rw (u, i)
          (with_comma-append p ps (print_pars_on_entry ps) (print_pars_on_exit ps)
            ∙ ap (with_comma p ps) (print_pars_lem ps))
    | inr i ↦ rw (u, i) (ap (with_comma p ps) (seen-all ps))
  ]
]
