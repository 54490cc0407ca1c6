-- ===== src/Explanations.antt =====
-- The playbook catalogue and the validation of explanations: backend/app/playbooks/engine.py and
-- backend/app/explanation/validator.py.
pub mod Playbooks
pub mod Validator
pub mod Grounded
