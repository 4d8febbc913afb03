-- ===== src/Examples/Working.antt =====
-- A batch of tasks and a response with its log at concrete inputs.
use lmao.Prelude.{◌≡◌, refl, String, Bool, true, Option, none, some, List, [], ◌∷◌, take, drop}
use lmao.Prelude.Result.{Result, ok}
use lmao.Prelude.Slices.{strip_prefix}
use lmao.Task
use lmao.Task.{Task}
use lmao.Node.Selection.{DelegationRequest}
use lmao.Node.Delegation.{answer}
use lmao.Node.History.{extract_codex_cid}
use lmao.Agent.{
  ExecOutput, Agent, format_response, reject_payload, run_task, upload_log, execute, batch, reject,
  serve,
}
use lmao.Agent.Inbox.{executed, rejected, sent, serve-take-drop, extract_codex_cid-format_response}

-- A command that echoes, and responses that are collected.
abbrev echo : String → Option String → String → Result String ExecOutput
echo text session sender = ok (record { response = text; log = "" })

abbrev collect : Task → String → Bool → List String → List String
collect task response failed said = response ∷ said

abbrev single : Agent (List String)
single = record { load = record { in_flight = 0; max_concurrent = 1 }; node = [] }

abbrev jobs : List Task
jobs = Task.new "t1" "02aa" "02me" "hello" ∷ Task.new "t2" "02bb" "02me" "bye" ∷ []

serve-take-drop_example :
    (serve echo none collect jobs single
      ≡ rejected echo none collect (drop 1 jobs) (executed echo none collect (take 1 jobs) single))
    × ((serve echo none collect jobs single).load ≡ single.load)
    × ((task : Task) (outbox : Agent (List Task)) (request : DelegationRequest) (peer_id : String)
        → (response : Task) × ((reject echo none sent task outbox).node ≡ response ∷ outbox.node)
          × ((answer request peer_id task.id response).success ≡ true)
          × ((answer request peer_id task.id response).result_text ≡ some reject_payload))
serve-take-drop_example = serve-take-drop echo none collect jobs single (refl, (refl, tt))

one_is_rejected : (serve echo none collect jobs single).node ≡ reject_payload ∷ "hello" ∷ []
unfolding batch execute run_task upload_log
one_is_rejected = refl

extract_codex_cid-format_response_example :
    extract_codex_cid (format_response "done" (some "zQ1")) ≡ "zQ1"
unfolding strip_prefix
extract_codex_cid-format_response_example =
    extract_codex_cid-format_response "done" "zQ1"
      (
        refl,
        (
          refl,
          (
            refl,
            (
              refl,
              (
                refl,
                (
                  refl,
                  (
                    refl,
                    (
                      refl,
                      (
                        refl,
                        (
                          refl,
                          (
                            refl,
                            (
                              refl,
                              (
                                refl,
                                (
                                  refl,
                                  (
                                    refl,
                                    (
                                      refl,
                                      (
                                        refl,
                                        (
                                          refl,
                                          (
                                            refl,
                                            (refl, (refl, (refl, (refl, (refl, (refl, tt)))))),
                                          ),
                                        ),
                                      ),
                                    ),
                                  ),
                                ),
                              ),
                            ),
                          ),
                        ),
                      ),
                    ),
                  ),
                ),
              ),
            ),
          ),
        ),
      )
      (refl, (refl, (refl, tt)))
