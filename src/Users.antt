-- ===== src/Users.antt =====
-- Who uses the program: assistants/user_profile.py and core/session.py.
pub mod Profile
pub mod Session
