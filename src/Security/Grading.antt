-- ===== src/Security/Grading.antt =====
-- security.go and the detectors that search lists of patterns: what a search reports.
use security_go.Shared.{
  ◌≡◌, ap, ◌∙◌, ◌↔◌, ◌⊎◌, inl, inr, true, String, List, [], ◌∷◌, ◌++◌, none, some, arith, In,
  Bool-cases, Option-cases, In-append, In-append_left, In-append_right,
}
use security_go.Security.{Result, Severity, Regexp, clean}
use security_go.Security.Patterns.{first_match, search_one, search_two}

module _ (rx : Regexp) (input : String) where
  -- Some pattern of the list matches.
  abbrev pub Matches : List String → Type 0
  Matches patterns = (p : String) × In p patterns × (rx.match_string p input ≡ true)

  pub first_match-Matches :
      (patterns : List String) (p : String)
      → first_match rx input patterns ≡ some p
      → In p patterns × (rx.match_string p input ≡ true)
  unfolding first_match
  first_match-Matches [] p h = cc
  first_match-Matches (q ∷ patterns) p h = elim (Bool-cases (rx.match_string q input)) [
    | inl hit ↦ (inl (ground arith), ground arith)
    | inr miss ↦
        let (found, hit) = first_match-Matches patterns p (ground arith) in (inr found, hit)
  ]

  pub first_match_complete :
      (patterns : List String) → first_match rx input patterns ≡ none → ¬ Matches patterns
  unfolding first_match
  first_match_complete [] h (p, i, e) = i
  first_match_complete (q ∷ patterns) h (p, inl same, e) =
      let hit : rx.match_string q input ≡ true = ap (λ x. rx.match_string x input) same ∙ e in
      ground arith
  first_match_complete (q ∷ patterns) h (p, inr i, e) =
      first_match_complete patterns (ground arith) (p, i, e)

  -- A result that says exactly whether a pattern matches: with the first severity if one of the first
  -- list does, and else with the second if one of the second list does.
  pub record Grades (strong weak : List String) (top next : Severity) (r : Result) : Type 0 where
    pub exact : (r.detected ≡ true) ↔ (Matches strong ⊎ Matches weak)
    pub graded_strong : Matches strong → r.severity ≡ top
    pub graded_weak : ¬ Matches strong → Matches weak → r.severity ≡ next

  module _ (name : String) (patterns : List String) (top : Severity) (found : String → Result)
      (found_hits : (p : String) → (found p).detected ≡ true)
      (found_top : (p : String) → (found p).severity ≡ top) where
    pub search_one-Grades :
        Grades patterns [] top top (search_one rx input patterns found (clean name))
    unfolding search_one
    search_one-Grades = elim (Option-cases (first_match rx input patterns)) [
      | inr (p, h) ↦
          let (i, e) = first_match-Matches patterns p h in
          rw (h, search_one)
            (record {
              exact = (λ _. inl (p, i, e), λ _. found_hits p);
              graded_strong = λ _. found_top p;
              graded_weak = λ no_strong _. absurd (no_strong (p, i, e));
            })
      | inl h ↦
          rw (h, search_one)
            (record {
              exact = (
                λ e. cc,
                λ e. elim e [
                  | inl m ↦ absurd (first_match_complete patterns h m)
                  | inr (p, i, q) ↦ absurd i
                ],
              );
              graded_strong = λ m. absurd (first_match_complete patterns h m);
              graded_weak = λ _ (p, i, q). absurd i;
            })
    ]

    -- With a first list of which no pattern matches.
    pub search_two-Grades :
        (strong : List String) (high_top : Severity) (strong_found : String → Result)
        (strong_hits : (p : String) → (strong_found p).detected ≡ true)
        (strong_top : (p : String) → (strong_found p).severity ≡ high_top)
        → Grades strong patterns high_top top
            (search_two rx input strong strong_found patterns found (clean name))
    unfolding search_two
    search_two-Grades strong high_top strong_found strong_hits strong_top =
        elim (Option-cases (first_match rx input strong)) [
          | inr (p, h) ↦
              let (i, e) = first_match-Matches strong p h in
              rw (h, search_two)
                (record {
                  exact = (λ _. inl (p, i, e), λ _. strong_hits p);
                  graded_strong = λ _. strong_top p;
                  graded_weak = λ no_strong _. absurd (no_strong (p, i, e));
                })
          | inl h ↦
              let one = search_one-Grades in
              let none_strong = first_match_complete strong h in
              rw (h, search_two)
                (record {
                  exact = (
                    λ e. elim (one.exact.0 e) [ inl m ↦ inr m | inr (p, i, q) ↦ absurd i ],
                    λ e. elim e [ inl m ↦ absurd (none_strong m) | inr m ↦ one.exact.1 (inl m) ],
                  );
                  graded_strong = λ m. absurd (none_strong m);
                  graded_weak = λ _ m. one.graded_strong m;
                })
        ]

  -- A list that is searched before what `r` stands for.
  pub prepend-Grades :
      (strong weak patterns : List String) (top next : Severity) (found : String → Result)
      (r : Result)
      → ((p : String) → (found p).detected ≡ true)
      → ((p : String) → (found p).severity ≡ top)
      → Grades strong weak top next r
      → Grades (patterns ++ strong) weak top next (search_one rx input patterns found r)
  unfolding search_one
  prepend-Grades strong weak patterns top next found r hits is_top g =
      elim (Option-cases (first_match rx input patterns)) [
        | inr (p, h) ↦
            let (i, e) = first_match-Matches patterns p h in
            let j = In-append_left p patterns strong i in
            rw (h, search_one)
              (record {
                exact = (λ _. inl (p, j, e), λ _. hits p);
                graded_strong = λ _. is_top p;
                graded_weak = λ no_strong _. absurd (no_strong (p, j, e));
              })
        | inl h ↦
            let later : Matches (patterns ++ strong) → Matches strong = λ (p, i, e).
              elim (In-append p patterns strong i) [
                | inl first ↦ absurd (first_match_complete patterns h (p, first, e))
                | inr second ↦ (p, second, e)
              ] in
            let sooner : Matches strong → Matches (patterns ++ strong) =
              λ (p, i, e). (p, In-append_right p patterns strong i, e) in
            rw (h, search_one)
              (record {
                exact = (
                  λ e. elim (g.exact.0 e) [ inl m ↦ inl (sooner m) | inr m ↦ inr m ],
                  λ e. elim e [ inl m ↦ g.exact.1 (inl (later m)) | inr m ↦ g.exact.1 (inr m) ],
                );
                graded_strong = λ m. g.graded_strong (later m);
                graded_weak = λ no_strong. g.graded_weak (λ m. no_strong (sooner m));
              })
      ]

  -- What a single list grades, with that list as the second one.
  pub demote-Grades :
      (patterns : List String) (top next : Severity) (r : Result)
      → Grades patterns [] next next r
      → Grades [] patterns top next r
  demote-Grades patterns top next r g = record {
    exact = (
      λ e. elim (g.exact.0 e) [ inl m ↦ inr m | inr (p, i, q) ↦ absurd i ],
      λ e. elim e [ inl (p, i, q) ↦ absurd i | inr m ↦ g.exact.1 (inl m) ],
    );
    graded_strong = λ (p, i, q). absurd i;
    graded_weak = λ _ m. g.graded_strong m;
  }
