-- ===== src/Bridge.antt =====
-- judge/bridge: the server that hands submissions to the judges.
pub mod JudgeList
