-- ===== src/Controller/Sound/Calls.antt =====
-- The calls of `Controller` as steps of the ledger's life.
use infer_stack.Store.{Store}
use infer_stack.Controller.Queue.{Queue}
