-- ===== src/Image.antt =====
-- internal/pkg/image: the ids of users and groups in an image.
pub mod Syncuser
mod Examples
