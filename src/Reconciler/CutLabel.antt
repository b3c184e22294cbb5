-- ===== src/Reconciler/CutLabel.antt =====
-- `Reconcile` of the reconcilers on a name of a field manager that was cut within a character.
use runtime_overrides_operat.Platform.{Platform}
use runtime_overrides_operat.Proc.{Proc}
use runtime_overrides_operat.Reconciler.Gather.{Reconciler}
