-- ===== src/Guest/Transfer/Swap.antt =====
-- The swap of the agent's binary is atomic: after `finish` the binary is the new one, with the
-- announced checksum, or the one that was there before.
use goship.Base.{
  Text, true, none, some, get, remove, get-remove, get-remove_ne, ◌≡◌, ◌≢◌, refl, sym, ◌∙◌, text_eq,
  text_beq_iff, text_beq, text_ne, arith, append_cancel,
}
use goship.Guest.Files.{
  Files, rename, get-rename_other, get-rename_dst, get-rename_full, get-rename_src,
}
use goship.Guest.State.{UpdateState, Agent, ok, System, Coding}
use goship.Guest.Transfer.Update.{
  new_path, current_path, old_path, swap_binary, handle_update_finish,
}

module _ (a : Agent) where
  new-ne-current : new_path a ≢ current_path a
  unfolding text_beq
  new-ne-current e = text_ne _ _ refl (append_cancel a.init_dir _ _ e)

  new-ne-old : new_path a ≢ old_path a
  unfolding text_beq
  new-ne-old e = text_ne _ _ refl (append_cancel a.init_dir _ _ e)

  current-ne-old : current_path a ≢ old_path a
  unfolding text_beq
  current-ne-old e = text_ne _ _ refl (append_cancel a.init_dir _ _ e)

get-remove_self : (j : Text) (fs : Files) → get (remove fs j) j ≡ none
get-remove_self j fs = ground (arith, get-remove fs j j, text_beq_iff j j)

-- The renames, from a file system in which the old backup is gone.
module _ (sys : System) (a : Agent) (c : Text) (written : get a.files (new_path a) ≡ some c)
    (free : get a.files (old_path a) ≡ none) where
  swapped : Files
  swapped = rename (current_path a) (old_path a) a.files

  swapped-new : get swapped (new_path a) ≡ some c
  unfolding swapped
  swapped-new =
      get-rename_other (current_path a) (old_path a) a.files (new_path a)
        (λ e. new-ne-current a (sym e)) (λ e. new-ne-old a (sym e))
      ∙ written

  swapped-old : get swapped (old_path a) ≡ get a.files (current_path a)
  unfolding swapped
  swapped-old = get-rename_dst (current_path a) (old_path a) a.files free

  swapped-current : get swapped (current_path a) ≡ none
  unfolding swapped
  swapped-current = get-rename_src (current_path a) (old_path a) a.files (current-ne-old a)

  installed-current : get (rename (new_path a) (current_path a) swapped) (current_path a) ≡ some c
  installed-current = get-rename_full (new_path a) (current_path a) swapped c swapped-new

  installed-old :
      get (rename (new_path a) (current_path a) swapped) (old_path a) ≡ get a.files (current_path a)
  installed-old =
      get-rename_other (new_path a) (current_path a) swapped (old_path a) (new-ne-old a)
        (current-ne-old a)
      ∙ swapped-old

  restored-current :
      get (rename (old_path a) (current_path a) swapped) (current_path a)
      ≡ get a.files (current_path a)
  restored-current =
      get-rename_dst (old_path a) (current_path a) swapped swapped-current ∙ swapped-old

  swap_binary_atomic :
      ((swap_binary (new_path a) sys a).1.update ≡ none)
      × ((swap_binary (new_path a) sys a).0 ≡ ok
          → (get (swap_binary (new_path a) sys a).1.files (current_path a) ≡ some c)
            × (get (swap_binary (new_path a) sys a).1.files (old_path a)
                ≡ get a.files (current_path a)))
      × ((swap_binary (new_path a) sys a).0 ≢ ok
          → sys.restore_works ≡ true
          → get (swap_binary (new_path a) sys a).1.files (current_path a)
            ≡ get a.files (current_path a))
  unfolding swap_binary swapped
  swap_binary_atomic = ground (
    arith,
    installed-current,
    installed-old,
    restored-current,
    get-remove_ne (current_path a) (new_path a) a.files (new-ne-current a),
  )

-- How `finish` ends for an update whose file is there.
module _ (code : Coding) (sys : System) (a : Agent) (u : UpdateState) (c : Text)
    (busy : a.update ≡ some u) (place : u.path ≡ new_path a)
    (written : get a.files u.path ≡ some c) where
  -- Whatever fails, no update is in progress afterwards. If the reply is `ok`, the binary is what
  -- was written, its SHA-256 is the announced one, and the binary that was there is the backup.
  -- Otherwise the binary is the one that was there, where a failed second rename is undone.
  pub handle_update_finish_atomic :
      ((handle_update_finish code sys a).1.update ≡ none)
      × ((handle_update_finish code sys a).0 ≡ ok
          → (get (handle_update_finish code sys a).1.files (current_path a) ≡ some c)
            × (code.sha256 c ≡ u.checksum)
            × (get (handle_update_finish code sys a).1.files (old_path a)
                ≡ get a.files (current_path a)))
      × ((handle_update_finish code sys a).0 ≢ ok
          → sys.restore_works ≡ true
          → get (handle_update_finish code sys a).1.files (current_path a)
            ≡ get a.files (current_path a))
  unfolding handle_update_finish
  handle_update_finish_atomic =
      let b : Agent = record a { files = remove a.files (old_path a) } in
      let there : get a.files (new_path a) ≡ some c = rw place at written in
      ground (
        arith,
        there,
        swap_binary_atomic sys b c
            (get-remove_ne (new_path a) (old_path a) a.files (λ e. new-ne-old a (sym e)) ∙ there)
            (get-remove_self (old_path a) a.files),
        get-remove_ne (current_path a) (old_path a) a.files (λ e. current-ne-old a (sym e)),
        get-remove_ne (current_path a) (new_path a) a.files (new-ne-current a),
        text_beq_iff (code.sha256 c) u.checksum,
      )
