-- ===== src/Record/Packet.antt =====
-- When the evidence that G2 decides on is complete: `g2PacketReady` of
-- packages/core/src/record/schema.ts.
use gateline.Prelude.{String, Bool, not, ◌&&◌, ◌||◌, List, all, any, is_empty, mem_text}
use gateline.Record.Phases.{is_patch}
use gateline.Record.State.{TaskEntry, RunState, g2_complete}
use gateline.Record.Artifact.{is_review_report}

unfoldable pub g2_packet_ready : RunState → List String → Bool
g2_packet_ready s artifacts =
    let tasks_complete =
      not (is_empty s.tasks) && all (λ (t : TaskEntry). g2_complete t.status) s.tasks in
    let verification = is_patch s.profile || mem_text "verification-report.md" artifacts in
    tasks_complete && any is_review_report artifacts && verification
