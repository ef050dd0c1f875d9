-- ===== src/Preflight/Issues.antt =====
-- src/multistream-preflight.cpp: lists of issues with none that is a hard incompatibility.
use obs_live_delay_plugin.RtmpTarget.Credentials.{and_true}
use obs_live_delay_plugin.Base.{
  ◌∷◌, [], List, Bool, ◌≡◌, ◌++◌, refl, ℕ, true, if◌then◌else◌, not, String, false,
}
use obs_live_delay_plugin.Preflight.{
  PreflightIssue, PreflightSeverity, no_hard_issue, issue_if, DestinationPlatform,
  PreflightIssueKind, is_hard,
}

abbrev pub NoHard : List PreflightIssue → Type 0
NoHard issues = no_hard_issue issues ≡ true

pub NoHard-split : (xs ys : List PreflightIssue) → NoHard (xs ++ ys) → NoHard xs × NoHard ys
unfolding no_hard_issue
NoHard-split [] ys h = (refl, h)
NoHard-split (x ∷ xs) ys h =
    let (soft, rest) = and_true (not (is_hard x.severity)) (no_hard_issue (xs ++ ys)) h in
    let (front, back) = NoHard-split xs ys rest in (rw soft front, back)

pub NoHard-join : (xs ys : List PreflightIssue) → NoHard xs → NoHard ys → NoHard (xs ++ ys)
unfolding no_hard_issue
NoHard-join [] ys hx hy = hy
NoHard-join (x ∷ xs) ys hx hy =
    let (soft, rest) = and_true (not (is_hard x.severity)) (no_hard_issue xs) hx in
    rw soft (NoHard-join xs ys rest hy)

abbrev pub hard_if : Bool → DestinationPlatform → PreflightIssueKind → String → List PreflightIssue
hard_if b p k m = issue_if b p PreflightSeverity.hard_incompatibility k m

pub NoHard-hard_if :
    (b : Bool) (p : DestinationPlatform) (k : PreflightIssueKind) (m : String)
    → NoHard (hard_if b p k m)
    → b ≡ false
unfolding no_hard_issue
NoHard-hard_if true p k m h = cc
NoHard-hard_if false p k m h = refl

pub hard_if-NoHard :
    (b : Bool) (p : DestinationPlatform) (k : PreflightIssueKind) (m : String)
    → b ≡ false
    → NoHard (hard_if b p k m)
unfolding no_hard_issue
hard_if-NoHard true p k m h = cc
hard_if-NoHard false p k m h = refl

pub guidance-NoHard :
    (b : Bool) (p : DestinationPlatform) (k : PreflightIssueKind) (m : String)
    → NoHard (issue_if b p PreflightSeverity.guidance k m)
unfolding no_hard_issue
guidance-NoHard true p k m = refl
guidance-NoHard false p k m = refl

pub NoHard-nil : NoHard []
unfolding no_hard_issue
NoHard-nil = refl

pub keyframes_near :
    (far : Bool) (p : DestinationPlatform) (k : PreflightIssueKind) (m : String)
    (soft : List PreflightIssue)
    → NoHard (if far then hard_if true p k m else soft)
    → far ≡ false
unfolding no_hard_issue
keyframes_near true p k m soft h = cc
keyframes_near false p k m soft h = refl

pub near_keyframes :
    (far : Bool) (p : DestinationPlatform) (k : PreflightIssueKind) (hard : List PreflightIssue)
    (advised : Bool) (n : String)
    → far ≡ false
    → NoHard (if far then hard else issue_if advised p PreflightSeverity.guidance k n)
near_keyframes true p k hard advised n e = cc
near_keyframes false p k hard advised n e = guidance-NoHard advised p k n

pub either_checked :
    {Q : Type 0} (b : Bool) (x y : ℕ × List PreflightIssue)
    → NoHard (if b then x else y).1
    → (b ≡ true → NoHard x.1 → Q)
    → (b ≡ false → NoHard y.1 → Q)
    → Q
either_checked true x y h f g = f refl h
either_checked false x y h f g = g refl h
