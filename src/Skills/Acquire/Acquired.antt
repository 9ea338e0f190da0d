-- ===== src/Skills/Acquire/Acquired.antt =====
-- What an acquisition stages.
use knolo_agents.Base.{◌≤◌, length, Result, ok, err, ◌≡◌, Has}
use knolo_agents.Base.Dict.{Dict}
use knolo_agents.Harness.Types.{HarnessError}
use knolo_agents.Skills.Types.{SkillAcquisitionStaged}
use knolo_agents.Skills.Acquire.{AcquireSkillsInput, AcquiredSkills, max_pulls}
use knolo_agents.Skills.Acquire.Loop.{Acquired}
use knolo_agents.Skills.Acquire.Staged.{IsOfHit}

module _ (input : AcquireSkillsInput) where
  -- What is returned: at most as many packs as may be pulled, each for a hit that may be.
  abbrev pub IsReturned : Result HarnessError AcquiredSkills → Type 0
  IsReturned (err e) = Unit
  IsReturned (ok a) =
      (length a.receipt.staged ≤ max_pulls)
      × (length a.packs ≡ length a.receipt.staged)
      × ((s : SkillAcquisitionStaged) → Has s a.receipt.staged → IsOfHit input s)

  -- Only what it returned is looked at.
  abbrev pub IsAcquired : Acquired → Type 0
  IsAcquired (activation, result) = IsReturned result
