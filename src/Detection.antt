-- ===== src/Detection.antt =====
-- backend/app/modules/detection_engineering/evaluator.py: the condition of a detection rule, from
-- its text to the value that it has for the outcomes of the rule's selections.
pub mod Tokens
pub mod Parser
pub mod Outcomes
pub mod Examples
