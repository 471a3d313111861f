-- ===== src/Parser/Functions.antt =====
-- Which registered functions see a message, and whether it is forwarded.
use olsrd_hybrid_plc.Prelude.{
  ℕ, ◌≡◌, inl, inr, refl, ap, ◌∙◌, Bool, true, false, Bool-cases, ◌&&◌, ◌||◌, List, [], ◌∷◌, arith,
  ◌==◌, if◌then◌else◌, get_or, ==_refl,
}
use olsrd_hybrid_plc.Parser.{
  ParseFunction, parser_add_function, parser_remove_function, run_functions, promiscuous,
}

abbrev pub all : List Bool → Bool
all [] = true
all (b ∷ bs) = b && all bs

said :
    (forward wanted rest : Bool)
    → ((if wanted then forward else false) && rest) ≡ (forward && (wanted && rest))
said true true rest = refl
said true false rest = refl
said false true rest = refl
said false false rest = refl

module _ {S : Type 0} where
  -- The entries for all types or for one.
  abbrev pub wanting : ℕ → List (ParseFunction S) → List (ParseFunction S)
  wanting type [] = []
  wanting type (e ∷ entries) =
      if (e.type == promiscuous) || (e.type == type)
      then e ∷ wanting type entries
      else wanting type entries

  -- All entries in their order, each with the state that the one before left: the verdicts and the
  -- last state.
  abbrev pub run_all : List (ParseFunction S) → List ℕ → S → List Bool × S
  run_all [] m s = ([], s)
  run_all (e ∷ entries) m s =
      let (wanted, s') = e.run m s in
      let (verdicts, s'') = run_all entries m s' in (wanted ∷ verdicts, s'')

  -- A message goes to the functions that are registered for its type or for all types, to each once and
  -- in the order of the list, and is to be forwarded if it was before and none of them objects.
  pub run_functions-wanting :
      (entries : List (ParseFunction S)) (m : List ℕ) (forward : Bool) (s : S)
      → let (verdicts, s') = run_all (wanting (get_or m 0 0) entries) m s in
        run_functions entries m forward s ≡ (forward && all verdicts, s')
  unfolding run_functions
  run_functions-wanting [] m forward s = ground arith
  run_functions-wanting (e ∷ entries) m forward s =
      elim (Bool-cases ((e.type == promiscuous) || (e.type == get_or m 0 0))) [
        | inl matches ↦ rw matches (
            run_functions-wanting entries m (if (e.run m s).0 then forward else false) (e.run m s).1
            ∙ ap (λ (b : Bool). (b, (run_all (wanting (get_or m 0 0) entries) m (e.run m s).1).1))
                (said forward (e.run m s).0
                  (all (run_all (wanting (get_or m 0 0) entries) m (e.run m s).1).0)))
        | inr other ↦ rw other (run_functions-wanting entries m forward s)
      ]

  -- Removing a function for a type undoes the last registration of it: the list is as it was.
  pub parser_remove_function-parser_add_function :
      (run : List ℕ → S → Bool × S) (function type : ℕ) (entries : List (ParseFunction S))
      → parser_remove_function function type (parser_add_function run function type entries)
        ≡ (1, entries)
  unfolding parser_remove_function parser_add_function
  parser_remove_function-parser_add_function run function type entries =
      rw (==_refl function, ==_refl type)
