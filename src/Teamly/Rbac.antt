-- ===== src/Teamly/Rbac.antt =====
-- teamly/src/lib/rbac.ts: the matrix of roles and actions.
use nastroyka_claude.Base.{
  ℕ, ◌≡◌, Bool, true, false, Option, none, some, List, [], ◌∷◌, any, leb, arith, if◌then◌else◌,
}

pub data Role : Type 0 where
  owner admin editor viewer : Role

pub data Action : Type 0 where
  page_read page_write page_delete comment_create space_manage : Action
  workspace_manage member_manage : Action

abbrev eq_action : Action → Action → Bool
eq_action page_read page_read = true
eq_action page_write page_write = true
eq_action page_delete page_delete = true
eq_action comment_create comment_create = true
eq_action space_manage space_manage = true
eq_action workspace_manage workspace_manage = true
eq_action member_manage member_manage = true
eq_action _ _ = false

-- MATRIX
unfoldable pub matrix : Role → List Action
matrix viewer = page_read ∷ comment_create ∷ []
matrix editor = page_read ∷ page_write ∷ page_delete ∷ comment_create ∷ []
matrix admin =
    page_read ∷ page_write ∷ page_delete ∷ comment_create ∷ space_manage ∷ member_manage ∷ []
matrix owner =
    page_read ∷ page_write ∷ page_delete ∷ comment_create ∷ space_manage ∷ member_manage
    ∷ workspace_manage ∷ []

unfoldable pub can : Role → Action → Bool
unfolding matrix
can role action = any (eq_action action) (matrix role)

pub record ForbiddenError : Type 0 where
  pub role : Role
  pub action : Action

-- The error that is thrown, if one is.
unfoldable pub authorize : Role → Action → Option ForbiddenError
authorize role action =
    if can role action then none else some (record { role = role; action = action })

-- The roles in their order, and the least rank that an action needs.
abbrev pub rank : Role → ℕ
rank viewer = 0
rank editor = 1
rank admin = 2
rank owner = 3

abbrev pub needed : Action → ℕ
needed page_read = 0
needed comment_create = 0
needed page_write = 1
needed page_delete = 1
needed space_manage = 2
needed member_manage = 2
needed workspace_manage = 3

can-rank : (role : Role) (action : Action) → can role action ≡ leb (needed action) (rank role)
unfolding can
can-rank viewer action = ground arith
can-rank editor action = ground arith
can-rank admin action = ground arith
can-rank owner action = ground arith

-- The roles form a chain: an action is authorized, that is no error is thrown, exactly when the
-- role's rank is at least the one that the action needs; in that order viewers read and comment,
-- editors also write and delete pages, admins also manage spaces and members, and owners also the
-- workspace. Where an error is thrown it names the role and the action.
pub authorize_lem :
    (role : Role) (action : Action)
    → authorize role action ≡ (
        if leb (needed action) (rank role)
        then none
        else some (record { role = role; action = action }))
unfolding authorize
authorize_lem role action = ground (arith, can-rank role action)
