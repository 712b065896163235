-- ===== src/ScopeGuard.antt =====
-- hypervisor/include/zpp/scope_guard.h: an action on a state that the destructor runs, unless the
-- guard was cancelled.
use zpp_hypervisor.Common.{Bool, true, false, List, [], ◌∷◌, if◌then◌else◌}

pub record ScopeGuard (S : Type 0) : Type 0 where
  pub function : S → S
  pub active : Bool

module _ {S : Type 0} where
  -- The constructor.
  abbrev pub guard : (S → S) → ScopeGuard S
  guard function = record { function = function; active = true }

  abbrev pub cancel : ScopeGuard S → ScopeGuard S
  cancel g = record g { active = false }

  -- `operator()`: disable the guard and call the function.
  abbrev pub call : ScopeGuard S → S → ScopeGuard S × S
  call g s = (cancel g, g.function s)

  -- The destructor.
  abbrev pub destroy : ScopeGuard S → S → S
  destroy g s = if g.active then g.function s else s

  -- The end of a scope: its guards, the youngest first, are destroyed.
  unfoldable pub unwind : List (ScopeGuard S) → S → S
  unwind [] s = s
  unwind (g ∷ gs) s = unwind gs (destroy g s)
