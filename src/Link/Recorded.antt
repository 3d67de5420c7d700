-- ===== src/Link/Recorded.antt =====
-- agent_mes_link.py: what is recorded of a cycle at its end.
use mathlib.Core.Path.{subst}
use text.Mathlib.Text.{◌==◌ as str_eq}
use linuxcnc_status_monitor.Common.{
  ℕ, suc, max, ◌≤◌, ◌<◌, ◌≡◌, sym, ◌⊎◌, inl, inr, ap, refl, String, Bool, Option, none, some, List,
  [], ◌∷◌, ◌++◌, length, ltb, if◌then◌else◌, arith, if_rule, if_cases,
}
use linuxcnc_status_monitor.Link.Current.{Field, str, Doc, Library, read_current, same_file}
use linuxcnc_status_monitor.Link.CycleLink.{
  Cycle, CycleLink, start, poll_cycle, poll, set_if_other, set_program, end_cycle, put_fact,
  fact_of, Fact, queue_size,
}
use linuxcnc_status_monitor.Link.Correlate.{
  Carries, Same, try_match-Same, poll_cycle-Same, set_if_other-Same,
}

-- what the sampling loop calls while a cycle runs
pub data Call : Type 0 where
  polled : ℕ → Option (List ℕ) → Call
  changed : String → Option (List ℕ) → Call

module _ (lib : Library) where
  abbrev pub call : Call → CycleLink → CycleLink
  call (polled now content) l = poll lib now content l
  call (changed file content) l = set_program lib file content l

  abbrev pub calls : List Call → CycleLink → CycleLink
  calls [] l = l
  calls (k ∷ ks) l = calls ks (call k l)

  abbrev pub contents_of : List Call → List (Option (List ℕ))
  contents_of [] = []
  contents_of (polled now content ∷ ks) = content ∷ contents_of ks
  contents_of (changed file content ∷ ks) = content ∷ contents_of ks

  -- the document is what the file held at one of the calls
  abbrev pub IsIn : Bool → List (Option (List ℕ)) → Doc → Type 0
  IsIn mw_data [] doc = ⊥
  IsIn mw_data (content ∷ contents) doc =
      (read_current lib mw_data content ≡ some doc) ⊎ IsIn mw_data contents doc

  -- a running cycle that began at a time, with the queue as it was
  abbrev pub Runs : (Doc → Type 0) → Field → ℕ → CycleLink → CycleLink → Type 0
  Runs W own began l₀ l =
      ((c : Cycle) × (l.cycle ≡ some c) × Same lib W own began c)
      × (l.mw_data ≡ l₀.mw_data)
      × (l.out ≡ l₀.out)
      × (l.dropped ≡ l₀.dropped)

  poll_running :
      (now : ℕ) (content : Option (List ℕ)) (l : CycleLink) (c : Cycle)
      → l.cycle ≡ some c
      → poll lib now content l ≡ record l { cycle = some (poll_cycle lib l.mw_data now content c) }
  unfolding poll
  poll_running now content l c e = rw e refl

  set_program_running :
      (file : String) (content : Option (List ℕ)) (l : CycleLink) (c : Cycle)
      → l.cycle ≡ some c
      → set_program lib file content l ≡ (
          if str_eq file "" then l else record l {
            cycle = some (
                set_if_other lib l.mw_data file content
                  (same_file lib (str file) c.program_path)
                  c);
          })
  unfolding set_program
  set_program_running file content l c e = rw e refl

  call-Runs :
      (W : Doc → Type 0) (own : Field) (began : ℕ) (l₀ : CycleLink) (k : Call) (l : CycleLink)
      → ((doc : Doc) → IsIn l₀.mw_data (contents_of (k ∷ [])) doc → W doc)
      → Runs W own began l₀ l
      → Runs W own began l₀ (call k l)
  call-Runs W own began l₀ (polled now content) l was ((c, e, s), m, o, d) =
      let read = λ (doc : Doc) (k : read_current lib l.mw_data content ≡ some doc).
        was doc (inl (subst (λ b. read_current lib b content ≡ some doc) m k)) in
      subst (Runs W own began l₀) (sym (poll_running now content l c e))
        ((_, refl, poll_cycle-Same lib W own began l.mw_data now content c read s), m, o, d)
  call-Runs W own began l₀ (changed file content) l was ((c, e, s), m, o, d) =
      let read = λ (doc : Doc) (k : read_current lib l.mw_data content ≡ some doc).
        was doc (inl (subst (λ b. read_current lib b content ≡ some doc) m k)) in
      subst (Runs W own began l₀) (sym (set_program_running file content l c e)) (
        if_rule P (str_eq file "") ((c, e, s), m, o, d)
          ((_, refl, set_if_other-Same lib W own began l.mw_data file content _ c read s), m, o, d))
    where
      P : CycleLink → Type 0
      P x = Runs W own began l₀ x

  IsIn-cons :
      (mw_data : Bool) (k : Call) (ks : List Call) (doc : Doc)
      → (IsIn mw_data (contents_of (k ∷ [])) doc → IsIn mw_data (contents_of (k ∷ ks)) doc)
        × (IsIn mw_data (contents_of ks) doc → IsIn mw_data (contents_of (k ∷ ks)) doc)
  IsIn-cons mw_data (polled now content) ks doc =
      (λ i. elim i [ inl e ↦ inl e | inr x ↦ absurd x ], λ i. inr i)
  IsIn-cons mw_data (changed file content) ks doc =
      (λ i. elim i [ inl e ↦ inl e | inr x ↦ absurd x ], λ i. inr i)

  calls-Runs :
      (W : Doc → Type 0) (own : Field) (began : ℕ) (l₀ : CycleLink) (ks : List Call) (l : CycleLink)
      → ((doc : Doc) → IsIn l₀.mw_data (contents_of ks) doc → W doc)
      → Runs W own began l₀ l
      → Runs W own began l₀ (calls ks l)
  calls-Runs W own began l₀ [] l was r = r
  calls-Runs W own began l₀ (k ∷ ks) l was r =
      let split = IsIn-cons l₀.mw_data k ks in
      calls-Runs W own began l₀ ks (call k l) (λ doc i. was doc ((split doc).1 i))
        (call-Runs W own began l₀ k l (λ doc i. was doc ((split doc).0 i)) r)

  start-Runs :
      (W : Doc → Type 0) (file : String) (uncertain : Bool) (now : ℕ) (id : String)
      (content : Option (List ℕ)) (l : CycleLink)
      → ((doc : Doc) → read_current lib l.mw_data content ≡ some doc → W doc)
      → Runs W (str id) now l (start lib file uncertain now id content l)
  unfolding start
  start-Runs W file uncertain now id content l was = (
    (
      _,
      refl,
      try_match-Same lib W (str id) now (read_current lib l.mw_data content) _ was
          ((refl, refl), refl),
    ),
    refl,
    refl,
    refl,
  )

  -- put into the queue if there is room, and counted as dropped if there is not
  abbrev pub IsPut : Fact → CycleLink → CycleLink → Type 0
  IsPut f l₀ l =
      (length l₀.out < queue_size) × (l.out ≡ l₀.out ++ f ∷ []) × (l.dropped ≡ l₀.dropped)
      ⊎ (queue_size ≤ length l₀.out) × (l.out ≡ l₀.out) × (l.dropped ≡ suc l₀.dropped)

  -- what the end of a cycle gives to the worker
  abbrev pub Recorded : (Doc → Type 0) → Field → ℕ → String → ℕ → CycleLink → CycleLink → Type 0
  Recorded W own began outcome now l₀ l =
      (l.cycle ≡ none)
      × ((f : Fact) × (f.started ≡ began)
          × (f.ended ≡ max now began)
          × (f.outcome ≡ outcome)
          × Carries lib W own began f.method f.execution_id f.operator_session_id
          × IsPut f l₀ l)

  put_fact-IsPut :
      (f : Fact) (l₀ l : CycleLink)
      → l.out ≡ l₀.out
      → l.dropped ≡ l₀.dropped
      → ((put_fact f l).cycle ≡ l.cycle) × IsPut f l₀ (put_fact f l)
  unfolding put_fact
  put_fact-IsPut f l₀ l o d =
      if_cases (λ (x : CycleLink). (x.cycle ≡ l.cycle) × IsPut f l₀ x)
        (ltb (length l.out) queue_size)
        (λ room. (
          refl,
          inl (subst (λ fs. length fs < queue_size) o (ground arith), ap (λ fs. fs ++ f ∷ []) o, d),
        ))
        (λ no_room.
          (refl, inr (subst (λ fs. queue_size ≤ length fs) o (ground arith), o, ap suc d)))

  end_cycle_running :
      (outcome : String) (now : ℕ) (l : CycleLink) (c : Cycle)
      → l.cycle ≡ some c
      → end_cycle outcome now l ≡ put_fact (fact_of outcome now c) (record l { cycle = none })
  unfolding end_cycle
  end_cycle_running outcome now l c e = rw e refl

  end_cycle-Recorded :
      (W : Doc → Type 0) (own : Field) (began : ℕ) (outcome : String) (now : ℕ) (l₀ l : CycleLink)
      → Runs W own began l₀ l
      → Recorded W own began outcome now l₀ (end_cycle outcome now l)
  unfolding fact_of
  end_cycle-Recorded W own began outcome now l₀ l ((c, e, s), m, o, d) =
      let f = fact_of outcome now c in
      let put = put_fact-IsPut f l₀ (record l { cycle = none }) o d in
      subst (Recorded W own began outcome now l₀) (sym (end_cycle_running outcome now l c e)) (
        put.0,
        (
          f,
          s.1,
          ap (λ t. max now t) s.1,
          refl,
          subst (λ t. Carries lib W own t c.method c.execution_id c.operator_session_id) s.1 s.0,
          put.1,
        ),
      )

  -- From the start of a cycle to its end, whatever is polled or changed in between, one fact is
  -- recorded: put into the queue if there is room, counted as dropped if there is not. It starts
  -- when the cycle did and does not end before; its execution id is the cycle's own, without an
  -- operator, or id and operator are those of a document that current_execution.json held at one
  -- of the calls, of a run that had not ended and that started at most 3 s before and 1 s after
  -- the cycle.
  pub Recorded-end_cycle :
      (file : String) (uncertain : Bool) (began : ℕ) (id : String) (content : Option (List ℕ))
      (ks : List Call) (outcome : String) (now : ℕ) (l : CycleLink)
      → Recorded
          (IsIn l.mw_data (content ∷ contents_of ks))
          (str id)
          began
          outcome
          now
          l
          (end_cycle outcome now (calls ks (start lib file uncertain began id content l)))
  Recorded-end_cycle file uncertain began id content ks outcome now l =
      let W = IsIn l.mw_data (content ∷ contents_of ks) in
      end_cycle-Recorded W (str id) began outcome now l _ (
        calls-Runs W (str id) began l ks _ (λ doc i. inr i)
          (start-Runs W file uncertain began id content l (λ doc e. inl e)))
