-- ===== src/Link/Correlate.antt =====
-- agent_mes_link.py: whose execution id a cycle carries, whatever the sampling loop calls.

use linuxcnc_status_monitor.Common.{
  ℕ, ◌+◌, ◌≤◌, ◌≡◌, ◌∙◌, refl, String, Bool, true, false, not, ◌&&◌, ◌||◌, Option, none, some, List,
  leb, arith, if_rule, if_cases,
}
use linuxcnc_status_monitor.Link.Current.{
  Field, str, Doc, Library, truthy, read_current, session_of, is_id, is_session, in_window,
  is_started_run, match_run, match_before, match_after,
}
use linuxcnc_status_monitor.Link.CycleLink.{
  Method, unmatched, explicit, time_window, Cycle, retry_every, retry_for, is_unmatched,
  is_explicit, adopt, adopt_by_time, try_by_time, try_doc, try_match, poll_cycle, change_program,
  set_if_other,
}

module _ (lib : Library) where
  -- The document is of a run that has not ended, with a proper id, that MillWright saw start at most
  -- 3 s before and 1 s after the time.
  abbrev pub IsRunOf : ℕ → Doc → Type 0
  IsRunOf agent_start doc =
      (truthy doc.ended_at ≡ false)
      × (is_id lib doc.execution_id ≡ true)
      × (is_session lib doc.operator_session_id ≡ true)
      × ((started : ℕ) × (lib.parse_timestamp doc.started_at ≡ some started)
          × (agent_start ≤ started + match_before)
          × (started ≤ agent_start + match_after))

  is_started_run-IsRunOf :
      (doc : Doc) (agent_start : ℕ) (t : Option ℕ)
      → lib.parse_timestamp doc.started_at ≡ t
      → not (truthy doc.ended_at)
          && is_id lib doc.execution_id
          && is_session lib doc.operator_session_id
          && in_window lib agent_start t
        ≡ true
      → IsRunOf agent_start doc
  unfolding in_window
  is_started_run-IsRunOf doc agent_start none k e = absurd (ground arith)
  is_started_run-IsRunOf doc agent_start (some t) k e =
      (ground arith, ground arith, ground arith, (t, k, ground arith, ground arith))

  match-IsRunOf :
      (doc : Doc) (file : Field) (agent_start : ℕ) (any_file : Bool)
      → match_run lib (some doc) file agent_start any_file ≡ some true
      → IsRunOf agent_start doc
  unfolding match_run is_started_run
  match-IsRunOf doc file agent_start any_file e =
      is_started_run-IsRunOf doc agent_start (lib.parse_timestamp doc.started_at) refl (
        if_cases (λ (o : Option Bool). o ≡ some true → is_started_run lib doc agent_start ≡ true)
          (not (is_started_run lib doc agent_start)) (λ no_run x. cc) (λ run x. ground arith) e)

-- with the documents that were read while the cycle ran
module _ (lib : Library) (WasRead : Doc → Type 0) where
  abbrev pub IsFrom : ℕ → Field → Option String → Type 0
  IsFrom started id operator =
      (doc : Doc) × (WasRead doc)
      × (IsRunOf lib started doc)
      × (id ≡ doc.execution_id)
      × (operator ≡ session_of doc.operator_session_id)

  -- without a match a cycle has its own id and no operator; with one, id and operator are those of a
  -- document that was read, of a run that started when the cycle did
  abbrev pub Carries : Field → ℕ → Method → Field → Option String → Type 0
  Carries own started unmatched id operator = (id ≡ own) × (operator ≡ none)
  Carries own started explicit id operator = IsFrom started id operator
  Carries own started time_window id operator = IsFrom started id operator

  abbrev pub IsCorrelated : Field → Cycle → Type 0
  IsCorrelated own c = Carries own c.started c.method c.execution_id c.operator_session_id

  adopt-IsCorrelated :
      (own : Field) (doc : Doc) (c : Cycle)
      → WasRead doc
      → IsRunOf lib c.started doc
      → IsCorrelated own (adopt doc c) × IsCorrelated own (adopt_by_time doc c)
  unfolding adopt adopt_by_time
  adopt-IsCorrelated own doc c was run = ((doc, was, run, refl, refl), (doc, was, run, refl, refl))

  try_by_time-IsCorrelated :
      (own : Field) (doc : Doc) (o : Option Bool) (c : Cycle)
      → WasRead doc
      → match_run lib (some doc) c.program_path c.started true ≡ o
      → IsCorrelated own c
      → IsCorrelated own (try_by_time lib doc o c)
  unfolding try_by_time
  try_by_time-IsCorrelated own doc none c was e i = i
  try_by_time-IsCorrelated own doc (some false) c was e i = i
  try_by_time-IsCorrelated own doc (some true) c was e i =
      (adopt-IsCorrelated own doc c was (match-IsRunOf lib doc c.program_path c.started true e)).1

  try_doc-IsCorrelated :
      (own : Field) (doc : Doc) (o : Option Bool) (c : Cycle)
      → WasRead doc
      → match_run lib (some doc) c.program_path c.started false ≡ o
      → IsCorrelated own c
      → IsCorrelated own (try_doc lib doc o c)
  unfolding try_doc
  try_doc-IsCorrelated own doc none c was e i = i
  try_doc-IsCorrelated own doc (some true) c was e i =
      (adopt-IsCorrelated own doc c was (match-IsRunOf lib doc c.program_path c.started false e)).0
  try_doc-IsCorrelated own doc (some false) c was e i =
      if_rule (IsCorrelated own) c.uncertain (try_by_time-IsCorrelated own doc _ c was refl i) i

  try_match-IsCorrelated :
      (own : Field) (o : Option Doc) (c : Cycle)
      → ((doc : Doc) → o ≡ some doc → WasRead doc)
      → IsCorrelated own c
      → IsCorrelated own (try_match lib o c)
  unfolding try_match
  try_match-IsCorrelated own none c was i = i
  try_match-IsCorrelated own (some doc) c was i =
      try_doc-IsCorrelated own doc _ c (was doc refl) refl i

  -- what no test changes
  try_match-started : (o : Option Doc) (c : Cycle) → (try_match lib o c).started ≡ c.started
  unfolding try_match try_doc try_by_time adopt adopt_by_time
  try_match-started none c = refl
  try_match-started (some doc) c = ground arith

  -- still the same cycle, and correlated
  abbrev pub Same : Field → ℕ → Cycle → Type 0
  Same own began c = IsCorrelated own c × (c.started ≡ began)

  pub try_match-Same :
      (own : Field) (began : ℕ) (o : Option Doc) (c : Cycle)
      → ((doc : Doc) → o ≡ some doc → WasRead doc)
      → Same own began c
      → Same own began (try_match lib o c)
  try_match-Same own began o c was s =
      (try_match-IsCorrelated own o c was s.0, try_match-started o c ∙ s.1)

  pub poll_cycle-Same :
      (own : Field) (began : ℕ) (mw_data : Bool) (now : ℕ) (content : Option (List ℕ)) (c : Cycle)
      → ((doc : Doc) → read_current lib mw_data content ≡ some doc → WasRead doc)
      → Same own began c
      → Same own began (poll_cycle lib mw_data now content c)
  unfolding poll_cycle
  poll_cycle-Same own began mw_data now content c was s =
      let next : Cycle = record c { next_try = now + retry_every } in
      if_rule P (not (is_unmatched c.method) || not mw_data) s (
        if_rule P (leb c.next_try now && leb now (c.started + (retry_for + retry_every)))
          (try_match-Same own began (read_current lib mw_data content) next was s) s)
    where
      P : Cycle → Type 0
      P x = Same own began x

  pub set_if_other-Same :
      (own : Field) (began : ℕ) (mw_data : Bool) (file : String) (content : Option (List ℕ))
      (o : Option Bool) (c : Cycle)
      → ((doc : Doc) → read_current lib mw_data content ≡ some doc → WasRead doc)
      → Same own began c
      → Same own began (set_if_other lib mw_data file content o c)
  unfolding set_if_other change_program
  set_if_other-Same own began mw_data file content none c was s = s
  set_if_other-Same own began mw_data file content (some true) c was s = s
  set_if_other-Same own began mw_data file content (some false) c was s =
      let next : Cycle = record c { program_path = str file; uncertain = false } in
      if_rule P (not (is_explicit c.method) && mw_data)
        (try_match-Same own began (read_current lib mw_data content) next was s) s
    where
      P : Cycle → Type 0
      P x = Same own began x
