-- ===== src/Guac/Clipboard/Grant.antt =====
-- The rights of a filter over its methods, against the grant.
use waas.Prelude.{
  suc, length, ◌≡◌, refl, Bool, true, false, List, [], ◌∷◌, Bytes, arith, if◌then◌else◌,
}
use waas.Guac.Result.{Result, ok, err, ◌>>=◌}
use waas.Guac.Instruction.{Instruction, read_instruction}
use waas.Guac.Clipboard.{
  ClipboardFilter, new_clipboard_filter, Side, server, client, Walk, walk, start, store,
  rewrite_with_replies, rewrite, filter_to_browser, filter_to_guacd, toggle, control,
  handle_control, direction_blocked_of,
}

-- The filter's grant is the token's, and no direction is open that it does not grant.
pub record IsWithin (copy paste : Bool) (f : ClipboardFilter) : Type 0 where
  pub copy_grant : f.grant_copy ≡ copy
  pub paste_grant : f.grant_paste ≡ paste
  pub copy_within : f.want_copy ≡ true → copy ≡ true
  pub paste_within : f.want_paste ≡ true → paste ≡ true

pub new_clipboard_filter-IsWithin :
    (copy paste : Bool) → IsWithin copy paste (new_clipboard_filter copy paste)
unfolding new_clipboard_filter
new_clipboard_filter-IsWithin copy paste = record {
  copy_grant = refl;
  paste_grant = refl;
  copy_within = λ h. h;
  paste_within = λ h. h;
}

-- The filter that a successful call leaves satisfies a predicate.
abbrev pub Leaves :
    {A : Type 0} → (A → ClipboardFilter) → (ClipboardFilter → Type 0) → Result A → Type 0
Leaves filter P (ok a) = P (filter a)
Leaves filter P (err e) = Unit

Leaves-if :
    {A : Type 0} (filter : A → ClipboardFilter) (P : ClipboardFilter → Type 0) (b : Bool)
    (m n : Result A)
    → Leaves filter P m
    → Leaves filter P n
    → Leaves filter P (if b then m else n)
Leaves-if filter P true m n h k = h
Leaves-if filter P false m n h k = k

module _ {copy paste : Bool} where
  store-IsWithin :
      (side : Side) (w : Walk) (f : ClipboardFilter)
      → IsWithin copy paste f
      → IsWithin copy paste (store side w f)
  store-IsWithin server w f v = record {
    copy_grant = v.copy_grant;
    paste_grant = v.paste_grant;
    copy_within = v.copy_within;
    paste_within = v.paste_within;
  }
  store-IsWithin client w f v = record {
    copy_grant = v.copy_grant;
    paste_grant = v.paste_grant;
    copy_within = v.copy_within;
    paste_within = v.paste_within;
  }

  toggle-IsWithin :
      (direction : Bytes) (enable : Bool) (f : ClipboardFilter)
      → IsWithin copy paste f
      → IsWithin copy paste (toggle direction enable f).0
  unfolding toggle
  toggle-IsWithin direction enable f v = ground arith

  control-IsWithin :
      (i : Instruction) (args : List Bytes) (f : ClipboardFilter)
      → IsWithin copy paste f
      → IsWithin copy paste (control i args f).0
  unfolding control
  control-IsWithin i [] f v = v
  control-IsWithin i (a ∷ []) f v = v
  control-IsWithin i (a ∷ b ∷ []) f v = v
  control-IsWithin i (name ∷ direction ∷ value ∷ more) f v = ground arith

  pub handle_control-IsWithin :
      (message : Bytes) (f : ClipboardFilter)
      → IsWithin copy paste f
      → IsWithin copy paste (handle_control message f).0
  handle_control-IsWithin message f v = by_read (read_instruction message) refl
    where
      by_read :
          (r : Result (Instruction × Bytes))
          → read_instruction message ≡ r
          → IsWithin copy paste (handle_control message f).0
      by_read (ok (i, rest)) e = unfold handle_control in rw e (control-IsWithin i i.args f v)
      by_read (err x) e = unfold handle_control in rw e v

  rewrite_with_replies-IsWithin :
      (side : Side) (frame : Bytes) (f : ClipboardFilter)
      → IsWithin copy paste f
      → Leaves (λ r. r.0) (IsWithin copy paste) (rewrite_with_replies side frame f)
  unfolding rewrite_with_replies
  rewrite_with_replies-IsWithin side frame f v =
      by_walk (walk (suc (length frame)) side (direction_blocked_of side f) (start side f) frame)
    where
      by_walk :
          (m : Result Walk)
          → Leaves
              (λ r. r.0)
              (IsWithin copy paste)
              (◌>>=◌ {B = ClipboardFilter × Bytes × Bytes} m
                (λ w. ok (store side w f, w.out, w.reply)))
      by_walk (ok w) = store-IsWithin side w f v
      by_walk (err e) = tt

  rewrite-IsWithin :
      (side : Side) (frame : Bytes) (f : ClipboardFilter)
      → IsWithin copy paste f
      → Leaves (λ r. r.0) (IsWithin copy paste) (rewrite side frame f)
  unfolding rewrite
  rewrite-IsWithin side frame f v =
      by_result (rewrite_with_replies side frame f) (rewrite_with_replies-IsWithin side frame f v)
    where
      by_result :
          (m : Result (ClipboardFilter × Bytes × Bytes))
          → Leaves (λ r. r.0) (IsWithin copy paste) m
          → Leaves
              (λ r. r.0)
              (IsWithin copy paste)
              (◌>>=◌ {B = ClipboardFilter × Bytes} m (λ r. ok (r.0, r.1)))
      by_result (ok r) h = h
      by_result (err e) h = tt

  -- `FilterToBrowser` and `FilterToGuacd`, on any bytes: the rights stay those of the token.
  pub filter_to_browser-IsWithin :
      (frame : Bytes) (f : ClipboardFilter)
      → IsWithin copy paste f
      → Leaves (λ r. r.0) (IsWithin copy paste) (filter_to_browser frame f)
  unfolding filter_to_browser
  filter_to_browser-IsWithin frame f v =
      Leaves-if (λ r. r.0) (IsWithin copy paste) _ (ok (f, frame)) (rewrite server frame f) v
        (rewrite-IsWithin server frame f v)

  pub filter_to_guacd-IsWithin :
      (message : Bytes) (f : ClipboardFilter)
      → IsWithin copy paste f
      → Leaves (λ r. r.0) (IsWithin copy paste) (filter_to_guacd message f)
  unfolding filter_to_guacd
  filter_to_guacd-IsWithin message f v =
      Leaves-if (λ r. r.0) (IsWithin copy paste) _ (ok (f, message, []))
        (rewrite_with_replies client message f) v (rewrite_with_replies-IsWithin client message f v)
