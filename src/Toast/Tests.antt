-- ===== src/Toast/Tests.antt =====
-- The queue of web/src/lib/toast.ts on small inputs.
use veckomenyn.Base.{◌≡◌, refl, none, some, List, [], ◌∷◌, Text, text, length, ◌===◌, show}
use veckomenyn.Toast.{
  ToastVariant, success, error, info, Toast, ToastOptions, init, cap_queue, find_index, add,
  dismiss, drop_non_errors,
}
use veckomenyn.Toast.Queue.{KeepsLatest, cap_queue-KeepsLatest}
use veckomenyn.Toast.Ids.{Call, show_toast, hide, run, IsValid, run-init-IsValid}

abbrev plain : ToastOptions
plain = record { action = none; duration = none; id = none }

abbrev named : Text → ToastOptions
named id = record { action = none; duration = none; id = some id }

abbrev toast_of : ToastVariant → Text → Toast
toast_of v id = record { id = id; variant = v; message = text "m"; action = none; duration = 0 }

-- Two errors between three others: the oldest two of the others go.
abbrev mixed : List Toast
mixed =
    toast_of info (text "a")
    ∷ toast_of error (text "b")
    ∷ toast_of success (text "c")
    ∷ toast_of error (text "d")
    ∷ toast_of info (text "e")
    ∷ []

cap_queue-mixed :
    cap_queue mixed
    ≡ toast_of error (text "b") ∷ toast_of error (text "d") ∷ toast_of info (text "e") ∷ []
unfolding cap_queue drop_non_errors
cap_queue-mixed = refl

cap_queue-KeepsLatest_example : KeepsLatest mixed (cap_queue mixed)
cap_queue-KeepsLatest_example = cap_queue-KeepsLatest mixed

-- A caller that chooses the id `t1` and a generated id `t1` meet.
abbrev calls : List Call
calls =
    show_toast error (text "save failed") (named (text "t1"))
    ∷ show_toast success (text "saved") plain
    ∷ hide (text "other")
    ∷ []

run_calls : length (run calls init).toasts ≡ 1
unfolding add dismiss find_index cap_queue show ◌===◌
run_calls = refl

run-init-IsValid_example : IsValid (run calls init)
run-init-IsValid_example = run-init-IsValid calls
