-- ===== src/Ws/Task.antt =====
-- `Task` of a `WSEndpoint` (task_ws.go): the mode decides, when the task is made, how it is executed.
use wadjit.Outcome.{Outcome}
use wadjit.Ws.Endpoint.{
  WsEndpointMode, mode_unknown, one_hit_text, persistent_json_rpc, other_mode, WsEndpoint, WsStep,
}
use wadjit.Ws.JsonRpc.{JsonRpc}
use wadjit.Ws.OneHit.{OneHitCalls, execute_one_hit}
use wadjit.Ws.Persistent.{PersistentCalls, WsPersistentProtocol, json_rpc, execute_persistent}

pub data WsTask : Type 0 where
  ws_persistent : WsPersistentProtocol → WsTask
  ws_one_hit : WsTask

unfoldable pub ws_task : WsEndpointMode → WsTask
ws_task persistent_json_rpc = ws_persistent json_rpc
ws_task one_hit_text = ws_one_hit
ws_task mode_unknown = ws_one_hit
ws_task (other_mode n) = ws_one_hit

-- An execution of a task, with what the libraries give to one of either kind.
unfoldable pub execute_task :
    {Req Resp Ident : Type 0}
    → JsonRpc Req Resp Ident
    → WsTask
    → PersistentCalls
    → OneHitCalls
    → WsEndpoint Ident
    → Outcome (WsStep Ident)
unfolding execute_persistent execute_one_hit
execute_task k (ws_persistent protocol) c o e = execute_persistent k protocol c e
execute_task k ws_one_hit c o e = execute_one_hit o e
