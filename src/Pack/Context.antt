-- ===== src/Pack/Context.antt =====
-- The context.Context of the functions of internal/pack: whether ctx.Err() reports an error, by the
-- place that asks. A run asks once at each.
use cube_idp.Base.{ℕ, Bool, Result, if◌then◌else◌, Text, ok, err}
use cube_idp.Pack.Errors.{PackError, context_done}

pub data Checkpoint : Type 0 where
  at_load : Checkpoint
  at_render_instance : Checkpoint
  at_render : Checkpoint
  at_kustomize : Checkpoint
  at_file : (name : Text) → Checkpoint
  at_entry : (index : ℕ) → Checkpoint

abbrev pub Context : Type 0
Context = Checkpoint → Bool

abbrev pub live : Context → Checkpoint → Result PackError (Unit {0})
live ctx place = if ctx place then err context_done else ok tt
