-- ===== src/Agent/Commands/Gate.antt =====
-- Which processes the commands start: a condition on processes that they keep.
use tenodera.Prelude.{
  ◌≡◌, true, List, [], ◌∷◌, ◌++◌, Text, nat_eq, codes, All, Bool-cases, inl, inr,
}
use tenodera.Agent.Commands.{
  Host, Call, as_root, as_person, M, perform, run_cmd, sudo_as_user, run_cmd_as_user,
  sudo_output_as_user, pipeline, sudo_stdin_write_as_user, sudo_n, spawn_as,
}

-- The process of `sudo_as_user`.
abbrev pub by_sudo : Text → Text → List Text → Call
by_sudo user password args =
    as_person user (codes "sudo" ∷ codes "-S" ∷ codes "-k" ∷ args) (password ++ b'\n' ∷ [])

module _ (P : Call → Type 0) where
  -- All processes satisfy the condition, if those before did.
  abbrev pub Keeps : {A : Type 0} → M A → Type 0
  Keeps m = (log : List Call) → All P log → All P (m log).1

  module _ (host : Host) where
    pub perform-Keeps : (call : Call) → P call → Keeps (perform host call)
    unfolding perform
    perform-Keeps call p log h = (p, h)

    pub run_cmd-Keeps :
        (program : Text) (args : List Text)
        → P (as_root (program ∷ args))
        → Keeps (run_cmd host (program ∷ args))
    unfolding run_cmd
    run_cmd-Keeps program args p log h = (p, h)

    -- A user that the host does not know starts nothing.
    pub sudo_as_user-Keeps :
        (user password : Text) (args : List Text)
        → (host.knows user ≡ true → P (by_sudo user password args))
        → Keeps (sudo_as_user host user password args)
    unfolding sudo_as_user
    sudo_as_user-Keeps user password args p log h = elim (Bool-cases (host.knows user)) [
      | inl known ↦ rw known (p known, h)
      | inr stranger ↦ rw stranger h
    ]

    pub run_cmd_as_user-Keeps :
        (user : Text) (args : List Text)
        → (host.knows user ≡ true → P (as_person user args []))
        → Keeps (run_cmd_as_user host user args)
    unfolding run_cmd_as_user
    run_cmd_as_user-Keeps user [] p log h = elim (Bool-cases (host.knows user)) [
      | inl known ↦ rw known h
      | inr stranger ↦ rw stranger h
    ]
    run_cmd_as_user-Keeps user (arg ∷ args) p log h = elim (Bool-cases (host.knows user)) [
      | inl known ↦ rw known (p known, h)
      | inr stranger ↦ rw stranger h
    ]

    pub sudo_output_as_user-Keeps :
        (user password : Text) (args : List Text)
        → (host.knows user ≡ true → P (by_sudo user password args))
        → Keeps (sudo_output_as_user host user password args)
    unfolding sudo_output_as_user
    sudo_output_as_user-Keeps user password args p = sudo_as_user-Keeps user password args p

    pub sudo_stdin_write_as_user-Keeps :
        (user password : Text) (args : List Text) (content : Text)
        → (host.knows user ≡ true
            → P (by_sudo user password (codes "sh" ∷ codes "-c" ∷ pipeline host args content ∷ [])))
        → Keeps (sudo_stdin_write_as_user host user password args content)
    unfolding sudo_stdin_write_as_user
    sudo_stdin_write_as_user-Keeps user password args content p =
        sudo_as_user-Keeps user password (codes "sh" ∷ codes "-c" ∷ pipeline host args content ∷ [])
          p

    pub spawn_as-Keeps :
        (user : Text) (args : List Text)
        → P (as_root (sudo_n user args))
        → Keeps (spawn_as host user args)
    unfolding spawn_as
    spawn_as-Keeps user args p log h = (p, h)
