-- ===== src/Chat/History/Groups.antt =====
-- The groups of the loop, by the role and the block of each row alone.
use factorial.Prelude.{
  ◌<◌, String, ◌≡◌, refl, sym, ◌∙◌, inl, inr, true, false, List, [], ◌∷◌, ◌++◌, map, arith, str_eq,
  eq_iff, if◌then◌else◌, Bool-cases, length,
}
use mathlib.Core.List.{append_assoc, append-nil}
use factorial.Chat.Rows.{MessageRow}
use factorial.Chat.History.{HistoryBlock, ApiMessage, role_of, block_of, flush, group}

-- What the loop reads of a row.
abbrev pub Turn : Type 0
Turn = String × HistoryBlock

abbrev pub turn_of : MessageRow → Turn
turn_of row = (role_of row, block_of row)

abbrev pub group_turns : String → List HistoryBlock → List Turn → List ApiMessage
group_turns role bs [] = flush role bs
group_turns role bs ((r, b) ∷ turns) =
    let joined = group_turns role (bs ++ b ∷ []) turns in
    let started = group_turns r (b ∷ []) turns in
    if str_eq r role then joined else flush role bs ++ started

pub group-turns :
    (role : String) (bs : List HistoryBlock) (rows : List MessageRow)
    → group role bs rows ≡ group_turns role bs (map turn_of rows)
unfolding group
group-turns role bs [] = refl
group-turns role bs (row ∷ rows) =
    rw
      (
        group-turns role (bs ++ block_of row ∷ []) rows,
        group-turns (role_of row) (block_of row ∷ []) rows,
      )
      refl

abbrev pub said : String → List HistoryBlock → List Turn
said role bs = map (λ b. (role, b)) bs

str_eq_self : (s : String) → str_eq s s ≡ true
str_eq_self s = (eq_iff s s).1 refl

-- Turns of the current role join the group.
pub group-said :
    (role : String) (bs more : List HistoryBlock) (rest : List Turn)
    → group_turns role bs (said role more ++ rest) ≡ group_turns role (bs ++ more) rest
group-said role bs [] rest = rw (append-nil bs) refl
group-said role bs (b ∷ more) rest =
    rw (str_eq_self role)
      (group-said role (bs ++ b ∷ []) more rest ∙ rw (append_assoc bs (b ∷ []) more) refl)

-- Turns of another role close the group and start one.
pub group-switch :
    (role other : String) (bs more : List HistoryBlock) (rest : List Turn)
    → str_eq other role ≡ false
    → 0 < length more
    → group_turns role bs (said other more ++ rest) ≡ flush role bs ++ group_turns other more rest
group-switch role other bs [] rest h k = absurd (omega arith)
group-switch role other bs (b ∷ more) rest h k = rw (h, group-said other (b ∷ []) more rest) refl

-- The role of the last of the turns, or of the group before them.
abbrev pub last_role : String → List Turn → String
last_role role [] = role
last_role role ((r, b) ∷ turns) = last_role r turns

-- Where the role changes, the messages before and after can be built apart.
pub group-append :
    (role other : String) (bs more : List HistoryBlock) (old rest : List Turn)
    → str_eq other (last_role role old) ≡ false
    → 0 < length more
    → group_turns role bs (old ++ (said other more ++ rest))
      ≡ group_turns role bs old ++ group_turns other more rest
group-append role other bs more [] rest h k = group-switch role other bs more rest h k
group-append role other bs more ((r, b) ∷ old) rest h k = elim (Bool-cases (str_eq r role)) [
  | inl same ↦
      rw same (
        group-append role other (bs ++ b ∷ []) more old rest (rw (sym ((eq_iff r role).0 same)) h)
          k)
  | inr new ↦
      rw (new, group-append r other (b ∷ []) more old rest h k)
        (sym
          (append_assoc (flush role bs) (group_turns r (b ∷ []) old) (group_turns other more rest)))
]
