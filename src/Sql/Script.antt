-- ===== src/Sql/Script.antt =====
-- sqldbwriter.cpp: exec, which runs the statements of a file.
use qt_network_protocol.Prelude.{
  ℕ, suc, zero, ◌+◌, ◌≡◌, refl, sym, ap, ◌∙◌, List, [], ◌∷◌, ◌++◌, Bool, true, false, ◌&&◌, ◌||◌,
  Option, none, some, length, take, drop, if◌then◌else◌, ◌==◌, arith, append_assoc, append-nil,
  Option-cases, Bool-cases, inl, inr,
}
use qt_network_protocol.Qt.{Text}

-- QString::lastIndexOf of ";", none for −1
unfoldable pub last_index_of : Text → Option ℕ
last_index_of [] = none
last_index_of (c ∷ line) = elim (last_index_of line) [
  | some i ↦ some (suc i)
  | none ↦ if c == 59 then some 0 else none
]

-- QString::contains of "--"
unfoldable pub has_comment : Text → Bool
has_comment [] = false
has_comment (c ∷ []) = false
has_comment (c ∷ d ∷ line) = (c == 45 && d == 45) || has_comment (d ∷ line)

-- What the loop has: `temp`, and the statements given to QSqlQuery::exec.
pub record Script : Type 0 where
  pub temp : Text
  pub executed : List Text

abbrev new_script : Script
new_script = record { temp = []; executed = [] }

-- Whether QSqlQuery::exec succeeds on a statement after others.
module _ (runs : List Text → Text → Bool) where
  -- The loop over the lines
  unfoldable pub exec_lines : List Text → Script → Script × Bool
  exec_lines [] s = (s, true)
  exec_lines (line ∷ lines) s =
      let whole = s.temp ++ line in
      let skipped = exec_lines lines s in
      let longer = exec_lines lines (record s { temp = whole }) in
      if has_comment line then skipped else elim (last_index_of line) [
        | none ↦ longer
        | some index ↦
            let delimiter_index = length s.temp + index in
            let statement = take delimiter_index whole in
            let ran : Script = record {
              temp = drop (suc delimiter_index) whole;
              executed = s.executed ++ (statement ∷ []);
            } in
            let rest = exec_lines lines ran in
            if runs s.executed statement then rest else (ran, false)
      ]

  -- SqlDBWriter::exec, for the lines of the file if it opens
  unfoldable pub exec : Option (List Text) → List Text × Bool
  exec none = ([], false)
  exec (some lines) = let (s, result) = exec_lines lines new_script in (s.executed, result)

-- The lines that are read, joined.
abbrev pub kept : List Text → Text
kept [] = []
kept (line ∷ lines) = if has_comment line then kept lines else line ++ kept lines

-- The statements, each with its delimiter.
abbrev pub closed : List Text → Text
closed [] = []
closed (statement ∷ rest) = statement ++ (59 ∷ closed rest)

closed-append :
    (log : List Text) (statement : Text)
    → closed (log ++ (statement ∷ [])) ≡ closed log ++ (statement ++ (59 ∷ []))
closed-append [] statement = refl
closed-append (s ∷ log) statement =
    ap (λ t. s ++ (59 ∷ t)) (closed-append log statement)
    ∙ sym (append_assoc s (59 ∷ closed log) (statement ++ (59 ∷ [])))

-- A line is what stands before its last delimiter, the delimiter, and the rest without one.
last_index_of-split :
    (line : Text) (i : ℕ)
    → last_index_of line ≡ some i
    → (take i line ++ (59 ∷ drop (suc i) line) ≡ line) × (last_index_of (drop (suc i) line) ≡ none)
unfolding last_index_of
last_index_of-split [] i e = absurd (ground (arith, e))
last_index_of-split (c ∷ line) i e = elim (Option-cases (last_index_of line)) [
  | inr (j, ej) ↦
      let at : i ≡ suc j = ground (arith, e, ej) in
      let rest = last_index_of-split line j ej in
      (
        ap (λ (k : ℕ). take k (c ∷ line) ++ (59 ∷ drop (suc k) (c ∷ line))) at
            ∙ ap (λ (t : Text). c ∷ t) rest.0,
        ap (λ (k : ℕ). last_index_of (drop (suc k) (c ∷ line))) at ∙ rest.1,
      )
  | inl ej ↦
      let at : i ≡ 0 = ground (arith, e, ej) in
      let is_delimiter : c ≡ 59 = ground (arith, e, ej) in
      (
        ap (λ (k : ℕ). take k (c ∷ line) ++ (59 ∷ drop (suc k) (c ∷ line))) at
            ∙ ap (λ (d : ℕ). d ∷ line) (sym is_delimiter),
        ap (λ (k : ℕ). last_index_of (drop (suc k) (c ∷ line))) at ∙ ej,
      )
]

take-longer :
    (front line : Text) (n i : ℕ)
    → n ≡ length front + i
    → take n (front ++ line) ≡ front ++ take i line
take-longer [] line n i e = ap (λ (k : ℕ). take k line) (omega (arith, e))
take-longer (c ∷ front) line zero i e = absurd (omega (arith, e))
take-longer (c ∷ front) line (suc n) i e =
    ap (λ (t : Text). c ∷ t) (take-longer front line n i (omega (arith, e)))

drop-longer :
    (front line : Text) (n i : ℕ)
    → n ≡ length front + i
    → drop (suc n) (front ++ line) ≡ drop (suc i) line
drop-longer [] line n i e = ap (λ (k : ℕ). drop (suc k) line) (omega (arith, e))
drop-longer (c ∷ front) line zero i e = absurd (omega (arith, e))
drop-longer (c ∷ front) line (suc n) i e = drop-longer front line n i (omega (arith, e))

-- What one statement leaves: the text as before.
closed-statement :
    (s : Script) (line : Text) (i : ℕ) (rest : Text)
    → last_index_of line ≡ some i
    → closed (s.executed ++ (take (length s.temp + i) (s.temp ++ line) ∷ []))
        ++ (drop (suc (length s.temp + i)) (s.temp ++ line) ++ rest)
      ≡ closed s.executed ++ (s.temp ++ (line ++ rest))
closed-statement s line i rest e =
    let place = length s.temp + i in
    let split = (last_index_of-split line i e).0 in
    let behind = drop (suc i) line in
    let regroup : (closed s.executed ++ ((s.temp ++ take i line) ++ (59 ∷ []))) ++ (behind ++ rest)
        ≡ closed s.executed ++ (s.temp ++ (take i line ++ ((59 ∷ behind) ++ rest))) =
      simp append_assoc in
    ap (λ (t : Text). t ++ (drop (suc place) (s.temp ++ line) ++ rest))
      (closed-append s.executed (take place (s.temp ++ line)))
    ∙ ap
        (λ (t : Text).
          (closed s.executed ++ (t ++ (59 ∷ []))) ++ (drop (suc place) (s.temp ++ line) ++ rest))
        (take-longer s.temp line place i refl)
    ∙ ap
        (λ (t : Text). (closed s.executed ++ ((s.temp ++ take i line) ++ (59 ∷ []))) ++ (t ++ rest))
        (drop-longer s.temp line place i refl)
    ∙ regroup
    ∙ ap (λ (t : Text). closed s.executed ++ (s.temp ++ t))
        (sym (append_assoc (take i line) (59 ∷ behind) rest) ∙ ap (λ (t : Text). t ++ rest) split)

last_index_of-append :
    (front line : Text)
    → last_index_of front ≡ none
    → last_index_of line ≡ none
    → last_index_of (front ++ line) ≡ none
unfolding last_index_of
last_index_of-append [] line h k = k
last_index_of-append (c ∷ front) line h k = elim (Option-cases (last_index_of front)) [
  | inl e ↦ ground (arith, h, e, last_index_of-append front line e k)
  | inr (i, e) ↦ absurd (ground (arith, h, e))
]

module _ (runs : List Text → Text → Bool) where
  exec_lines-kept :
      (lines : List Text) (s : Script)
      → (exec_lines runs lines s).1 ≡ true
      → closed (exec_lines runs lines s).0.executed ++ (exec_lines runs lines s).0.temp
        ≡ closed s.executed ++ (s.temp ++ kept lines)
  unfolding exec_lines
  exec_lines-kept [] s h = ap (λ (t : Text). closed s.executed ++ t) (sym (append-nil s.temp))
  exec_lines-kept (line ∷ lines) s h = elim (Bool-cases (has_comment line)) [
    | inl c ↦ ground (arith, c, exec_lines-kept lines s (ground (arith, c, h)))
    | inr c ↦ elim (Option-cases (last_index_of line)) [
      | inl e ↦
          let longer = record s { temp = s.temp ++ line } in
          let rest = exec_lines-kept lines longer (ground (arith, c, e, h)) in
          ground (arith, c, e, rest, append_assoc s.temp line (kept lines))
      | inr (i, e) ↦
          let place = length s.temp + i in
          let statement = take place (s.temp ++ line) in
          let ran : Script = record {
            temp = drop (suc place) (s.temp ++ line);
            executed = s.executed ++ (statement ∷ []);
          } in
          let done : runs s.executed statement ≡ true = ground (arith, c, e, h) in
          let rest = exec_lines-kept lines ran (ground (arith, c, e, done, h)) in
          ground (arith, c, e, done, rest, closed-statement s line i (kept lines) e)
    ]
  ]

  exec_lines-temp :
      (lines : List Text) (s : Script)
      → last_index_of s.temp ≡ none
      → (exec_lines runs lines s).1 ≡ true
      → last_index_of (exec_lines runs lines s).0.temp ≡ none
  unfolding exec_lines
  exec_lines-temp [] s clear h = clear
  exec_lines-temp (line ∷ lines) s clear h = elim (Bool-cases (has_comment line)) [
    | inl c ↦ ground (arith, c, exec_lines-temp lines s clear (ground (arith, c, h)))
    | inr c ↦ elim (Option-cases (last_index_of line)) [
      | inl e ↦
          let longer = record s { temp = s.temp ++ line } in
          let rest =
            exec_lines-temp lines longer (last_index_of-append s.temp line clear e)
              (ground (arith, c, e, h)) in
          ground (arith, c, e, rest)
      | inr (i, e) ↦
          let place = length s.temp + i in
          let statement = take place (s.temp ++ line) in
          let ran : Script = record {
            temp = drop (suc place) (s.temp ++ line);
            executed = s.executed ++ (statement ∷ []);
          } in
          let done : runs s.executed statement ≡ true = ground (arith, c, e, h) in
          let clear' : last_index_of ran.temp ≡ none =
            ap last_index_of (drop-longer s.temp line place i refl)
            ∙ (last_index_of-split line i e).1 in
          let rest = exec_lines-temp lines ran clear' (ground (arith, c, e, done, h)) in
          ground (arith, c, e, done, rest)
    ]
  ]

  -- When a script is run with success, the statements, each with its delimiter, are the lines
  -- without a comment, joined, up to their last delimiter: nothing before it is left out or run
  -- twice, and nothing behind it is run.
  pub exec-kept :
      (lines : List Text)
      → (exec runs (some lines)).1 ≡ true
      → (rest : Text) × (closed (exec runs (some lines)).0 ++ rest ≡ kept lines)
        × (last_index_of rest ≡ none)
  unfolding exec last_index_of
  exec-kept lines h = (
    (exec_lines runs lines new_script).0.temp,
    exec_lines-kept lines new_script h,
    exec_lines-temp lines new_script refl h,
  )
