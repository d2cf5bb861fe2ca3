-- ===== src/Tests/Queue.antt =====
-- A whole acquire of a new deployment on the small ledger.
use infer_stack.Base.{◌+◌, ◌*◌, true, false, none, []}
use infer_stack.Controller.Ready.{answers}
use infer_stack.Controller.Queue.{Queue, Wait}
use infer_stack.Tests.Controller.{round, world}

-- An attempt every 5 ticks, until 30.
abbrev queue : Queue
queue = record {
  wait_for_placement = true;
  placement_interval = 5;
  placement_deadline = 30;
  worlds = λ k. world;
  times = λ k. 9 + 5 * k;
  checks = λ k. 10 + 5 * k;
  next_ids = λ k. k;
  plan_on_idle_host = λ gs. none;
}

-- Every endpoint is ready from the first probe on.
abbrev wait : Wait
wait = record {
  wait = true;
  deadline = 100;
  cooldown = 30;
  rounds = λ k. round;
  reclaim_candidates = λ g idle. [];
  probes = λ k.
      answers
        (λ g endpoint. record { ready = true; fatal = false; needs_room = false; detail = "" });
  clock = λ k. record { now = 50 + 2 * k; at_room = 50 + 2 * k; after_room = 51 + 2 * k };
  undo = round;
}
