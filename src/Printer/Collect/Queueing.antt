-- ===== src/Printer/Collect/Queueing.antt =====
-- What `enqueue_unevaluated_consts` does to the work queue.
use stable_mir_json.Prelude.{
  ◌+◌, ◌≡◌, true, ◌||◌, List, [], ◌∷◌, arith, All, text_beq_self, text_eq, nat_eq, contains_key,
  contains_key-insert, length-insert, length,
}
use stable_mir_json.Mir.{Text}
use stable_mir_json.Compiler.{Compiler}
use stable_mir_json.Printer.Items.{mk_item}
use stable_mir_json.Printer.Analyzer.{UnevalConstInfo}
use stable_mir_json.Printer.Collect.{Queue, knows, enqueue_one, enqueue_unevaluated_consts}

-- A name that the loop has seen or will see.
abbrev pub IsQueued : Queue → Text → Type 0
IsQueued q name = (knows q.known_names name || contains_key q.pending name) ≡ true

-- As many names became known as items became pending.
abbrev pub InStep : Queue → Queue → Type 0
InStep q q' = length q'.known_names + length q.pending ≡ length q.known_names + length q'.pending

module _ (c : Compiler) where
  enqueue_one-InStep : (q : Queue) (info : UnevalConstInfo) → InStep q (enqueue_one c q info)
  unfolding enqueue_one
  enqueue_one-InStep q info =
      ground
        (arith, length-insert q.pending info.item_name (mk_item c info.mono_item info.item_name))

  enqueue_one-kept :
      (q : Queue) (info : UnevalConstInfo) (name : Text)
      → IsQueued q name
      → IsQueued (enqueue_one c q info) name
  unfolding enqueue_one
  enqueue_one-kept q info name h = ground (
    arith,
    contains_key-insert q.pending info.item_name name (mk_item c info.mono_item info.item_name),
  )

  enqueue_one-IsQueued :
      (q : Queue) (info : UnevalConstInfo) → IsQueued (enqueue_one c q info) info.item_name
  unfolding enqueue_one
  enqueue_one-IsQueued q info = ground (arith, text_beq_self info.item_name)

  enqueue_kept :
      (q : Queue) (infos : List UnevalConstInfo) (name : Text)
      → IsQueued q name
      → IsQueued (enqueue_unevaluated_consts c q infos) name
  unfolding enqueue_unevaluated_consts
  enqueue_kept q [] name h = h
  enqueue_kept q (info ∷ infos) name h =
      enqueue_kept (enqueue_one c q info) infos name (enqueue_one-kept q info name h)

  -- The name of every constant that was discovered is known or pending afterwards, and as many names
  -- became known as items became pending.
  pub enqueue_unevaluated_consts-IsQueued :
      (q : Queue) (infos : List UnevalConstInfo)
      → InStep q (enqueue_unevaluated_consts c q infos)
        × All
            (λ (info : UnevalConstInfo).
              IsQueued (enqueue_unevaluated_consts c q infos) info.item_name)
            infos
  unfolding enqueue_unevaluated_consts
  enqueue_unevaluated_consts-IsQueued q [] = (omega arith, tt)
  enqueue_unevaluated_consts-IsQueued q (info ∷ infos) =
      let q' = enqueue_one c q info in
      let (steps, all) = enqueue_unevaluated_consts-IsQueued q' infos in
      (
        omega (arith, enqueue_one-InStep q info, steps),
        (enqueue_kept q' infos info.item_name (enqueue_one-IsQueued q info), all),
      )
