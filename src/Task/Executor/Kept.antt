-- ===== src/Task/Executor/Kept.antt =====
-- Calls of the executor that keep the credits books balanced.
use Prim.Native.String.{String}
use oldman_agent.Prelude.{Option, none, some}
use oldman_agent.Exec.{Error, Exec}
use oldman_agent.Exec.Stable.{
  Stable, Stable-pure, Stable-raise, Stable-gets, Stable-if, Stable-catch, Stable-bind,
}
use oldman_agent.Floats.{Floats}
use oldman_agent.Json.{Json, obj, null, bool, num, text, arr}
use oldman_agent.Narrative.Renderer.{NarrativeRendererResult}
use oldman_agent.Task.Session.{Session}
use oldman_agent.Task.Filters.{get}
use oldman_agent.Task.Executor.{Executor, refuse_publish, release_royalties}
use oldman_agent.Task.Session.Kept.{
  KeepsBooks, emit-Stable, on_db_books-Stable, release_royalties-IsBalanced,
}

module _ (F : Floats) (x : Executor F) where
  open F use {R}

  pub refuse_publish-Stable :
      (reason : Option (String × String)) (e : Error)
      → Stable KeepsBooks (refuse_publish F x reason e)
  refuse_publish-Stable none e = Stable-raise KeepsBooks e
  refuse_publish-Stable (some (status, reason)) e = emit-Stable _

  pub release_royalties-Stable :
      (settled : Option String) (response : NarrativeRendererResult)
      → Stable KeepsBooks (release_royalties F x settled response)
  release_royalties-Stable none response = Stable-pure KeepsBooks _
  release_royalties-Stable (some invoice_id) response =
      Stable-if KeepsBooks x.settings.royalty_enabled _ _
        (Stable-catch KeepsBooks _ _
          (Stable-bind KeepsBooks _ _ (Stable-gets KeepsBooks _) λ ids.
            Stable-bind KeepsBooks _ _ (Stable-gets KeepsBooks _) λ now.
              Stable-bind KeepsBooks _ _
                (on_db_books-Stable _
                  (release_royalties-IsBalanced x.settings ids (some invoice_id) now))
                λ releases. Stable-pure KeepsBooks _)
          (λ e. Stable-pure KeepsBooks _))
        (Stable-pure KeepsBooks _)

  pub get-Stable :
      (name : String) (filters : Json)
      → (let reading : Exec (Session R) (Option Json) = get name filters in
          Stable KeepsBooks reading)
  get-Stable name (obj fs) = Stable-pure KeepsBooks _
  get-Stable name null = Stable-raise KeepsBooks _
  get-Stable name (bool b) = Stable-raise KeepsBooks _
  get-Stable name (num n) = Stable-raise KeepsBooks _
  get-Stable name (text t) = Stable-raise KeepsBooks _
  get-Stable name (arr items) = Stable-raise KeepsBooks _
